-- ===== src/Print/Output.antt =====
-- vsnprintf of kernel/print.c keeps to its buffer.
use nulix.Common.{
  ℕ, ◌+◌, ◌-◌, ◌%◌, ◌^◌, ◌<◌, ◌≡◌, refl, ◌∙◌, ◌==◌, ltb, leb, Bool, true, false, ◌&&◌,
  if◌then◌else◌, arith, inl, inr, Bool-cases, List, [], ◌∷◌, Option, none, some,
}
use nulix.Cstring.Memory.{Mem}
use nulix.Print.Number.{Printed}
use nulix.Print.Format.{
  Arg, word, text, Mode, plain, percent, specifier, Conversion, more, stop, undefined, write,
  write_text, write_number, write_pointer, with_word, with_text, convert, on_step, format,
  vsnprintf,
}
use nulix.Print.Bounds.{Bounded, put-Bounded, snprintnum-Bounded, fresh-Bounded}

-- No argument is a negative int.
unfoldable pub all_positive : List Arg → Bool
all_positive [] = true
all_positive (word n ∷ args) = ltb n (2 ^ 31) && all_positive args
all_positive (text s ∷ args) = all_positive args

module _ (m : Mem) (buf size : ℕ) where
  write-Bounded :
      (c : ℕ) (p : Printed)
      → Bounded m buf size p
      → p.count < size
      → Bounded m buf size (write buf c p)
  write-Bounded c p b h = put-Bounded m buf size (buf + p.count) c p b h (omega arith) (omega arith)

  write_text-Bounded :
      (s : List ℕ) (p : Printed)
      → Bounded m buf size p
      → Bounded m buf size (write_text buf size s p)
  unfolding write_text
  write_text-Bounded [] p b = b
  write_text-Bounded (c ∷ s) p b = elim (Bool-cases (ltb p.count size)) [
    | inl room ↦ rw room (write_text-Bounded s (write buf c p) (write-Bounded c p b (ground arith)))
    | inr full ↦ rw full b
  ]

  write_number-Bounded :
      (n base : ℕ) (issigned : Bool) (padding : ℕ) (p : Printed)
      → Bounded m buf size p
      → n < 2 ^ 31
      → Bounded m buf size (write_number buf size n base issigned padding p)
  unfolding write_number
  write_number-Bounded n base issigned padding p b h =
      let r =
        snprintnum-Bounded p.mem (buf + p.count) (size - p.count) n base issigned padding
          (λ e. ground arith) in
      record {
        count = omega (arith, r.count, b.count);
        outside = λ q o. r.outside q (ground arith) ∙ b.outside q o;
      }

  -- What a step leaves is in the buffer, and its arguments are no negative ints.
  pub record Good (p : Printed) (args : List Arg) : Type 0 where
    pub bounded : Bounded m buf size p
    pub positive : all_positive args ≡ true

  pub data GoodConversion : Conversion → Type 0 where
    good_more : (args : List Arg) (p : Printed) → Good p args → GoodConversion (more args p)
    good_stop : GoodConversion stop
    good_undefined : GoodConversion undefined

  with_word-Good :
      (f : ℕ → Printed) (args : List Arg)
      → all_positive args ≡ true
      → ((n : ℕ) → n < 2 ^ 31 → Bounded m buf size (f n))
      → GoodConversion (with_word f args)
  unfolding all_positive
  with_word-Good f [] h g = good_undefined
  with_word-Good f (word n ∷ args) h g =
      good_more args (f n) (record { bounded = g n (ground arith); positive = ground arith })
  with_word-Good f (text s ∷ args) h g = good_undefined

  with_text-Good :
      (f : List ℕ → Printed) (args : List Arg)
      → all_positive args ≡ true
      → ((s : List ℕ) → Bounded m buf size (f s))
      → GoodConversion (with_text f args)
  unfolding all_positive
  with_text-Good f [] h g = good_undefined
  with_text-Good f (word n ∷ args) h g = good_undefined
  with_text-Good f (text s ∷ args) h g =
      good_more args (f s) (record { bounded = g s; positive = h })

  GoodConversion-if :
      (c : Bool) (s t : Conversion)
      → (c ≡ true → GoodConversion s)
      → (c ≡ false → GoodConversion t)
      → GoodConversion (if c then s else t)
  GoodConversion-if true s t f g = f refl
  GoodConversion-if false s t f g = g refl

  module _ (padding : ℕ) (args : List Arg) (p : Printed) (g : Good p args)
      (h : p.count < size) where
    number-Good :
        (base : ℕ) (issigned : Bool)
        → GoodConversion (with_word (λ n. write_number buf size n base issigned padding p) args)
    number-Good base issigned =
        with_word-Good _ args g.positive
          (λ n k. write_number-Bounded n base issigned padding p g.bounded k)

    pointer-Good :
        2 < size - p.count
        → GoodConversion (with_word (λ n. write_pointer buf size n padding p) args)
    unfolding write_pointer
    pointer-Good room = with_word-Good _ args g.positive (λ n k.
        write_number-Bounded n 16 false padding (write buf 120 (write buf 48 p))
          (write-Bounded 120 (write buf 48 p) (write-Bounded 48 p g.bounded h) (omega arith)) k)

    convert-Good : (c : ℕ) → GoodConversion (convert buf size c padding args p)
    unfolding convert
    convert-Good c =
        GoodConversion-if (c == 37) _ _
          (λ e.
            good_more args _
              (record { bounded = write-Bounded 37 p g.bounded h; positive = g.positive }))
          (λ e.
            GoodConversion-if (c == 99) _ _
              (λ e. with_word-Good _ args g.positive (λ n k. write-Bounded (n % 256) p g.bounded h))
              (λ e.
                GoodConversion-if (c == 115) _ _
                  (λ e. with_text-Good _ args g.positive (λ s. write_text-Bounded s p g.bounded))
                  (λ e.
                    GoodConversion-if (c == 120) _ _ (λ e. number-Good 16 false)
                      (λ e.
                        GoodConversion-if (c == 112) _ _
                          (λ e.
                            GoodConversion-if (ltb 2 (size - p.count)) _ _
                              (λ r. pointer-Good (ground arith)) (λ r. good_more args p g))
                          (λ e.
                            GoodConversion-if (c == 98) _ _ (λ e. number-Good 2 false)
                              (λ e.
                                GoodConversion-if (c == 100) _ _ (λ e. number-Good 10 true)
                                  (λ e.
                                    GoodConversion-if (c == 117) _ _ (λ e. number-Good 10 false)
                                      (λ e. good_stop))))))))

  -- What is printed, if the behaviour is defined.
  pub data Prints : Option Printed → Type 0 where
    printed : (p : Printed) → Bounded m buf size p → Prints (some p)
    undefined_arg : Prints none

  on_step-Prints :
      (rest : List Arg → Printed → Option Printed) (p : Printed) (s : Conversion)
      → ((args : List Arg) (q : Printed) → Good q args → Prints (rest args q))
      → Bounded m buf size p
      → GoodConversion s
      → Prints (on_step rest p s)
  on_step-Prints rest p _ f b (good_more args q g) = f args q g
  on_step-Prints rest p _ f b good_stop = printed p b
  on_step-Prints rest p _ f b good_undefined = undefined_arg

  Prints-if :
      (c : Bool) (s t : Option Printed)
      → (c ≡ true → Prints s)
      → (c ≡ false → Prints t)
      → Prints (if c then s else t)
  Prints-if true s t f g = f refl
  Prints-if false s t f g = g refl

  -- After a `%` there is room for a byte.
  has_room : Mode → Printed → Bool
  has_room plain p = true
  has_room _ p = ltb p.count size

  format-Prints :
      (fmt : List ℕ) (mode : Mode) (padding : ℕ) (args : List Arg) (p : Printed)
      → Good p args
      → has_room mode p ≡ true
      → Prints (format buf size fmt mode padding args p)
  unfolding format has_room
  format-Prints [] mode padding args p g h = printed p g.bounded
  format-Prints (c ∷ cs) plain padding args p g h =
      Prints-if (ltb p.count size) _ _
        (λ room.
          Prints-if (c == 37) _ _ (λ e. format-Prints cs percent padding args p g room)
            (λ e.
              format-Prints cs plain padding args (write buf c p)
                (record {
                  bounded = write-Bounded c p g.bounded (ground arith);
                  positive = g.positive;
                })
                refl))
        (λ full. printed p g.bounded)
  format-Prints (c ∷ cs) percent padding args p g h =
      Prints-if (leb 48 c && leb c 57) _ _ (λ e. format-Prints cs specifier (c - 48) args p g h)
        (λ e.
          on_step-Prints _ p (convert buf size c padding args p)
            (λ rest q k. format-Prints cs plain padding rest q k refl) g.bounded
            (convert-Good padding args p g (ground arith) c))
  format-Prints (c ∷ cs) specifier padding args p g h =
      on_step-Prints _ p (convert buf size c padding args p)
        (λ rest q k. format-Prints cs plain padding rest q k refl) g.bounded
        (convert-Good padding args p g (ground arith) c)

-- Whatever the format, vsnprintf counts no more than `size` bytes and writes none outside of its
-- buffer, as long as no argument is a negative int.
pub vsnprintf-Prints :
    (m : Mem) (buf size : ℕ) (fmt : List ℕ) (args : List Arg)
    → all_positive args ≡ true
    → Prints m buf size (vsnprintf m buf size fmt args)
unfolding vsnprintf has_room
vsnprintf-Prints m buf size fmt args h =
    format-Prints m buf size fmt plain 0 args (record { mem = m; count = 0 })
      (record { bounded = fresh-Bounded m buf size; positive = h }) refl
