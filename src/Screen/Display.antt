-- ===== src/Screen/Display.antt =====
-- What sb_sync of kernel/screenbuf.c shows: 25 lines of the buffer from the view's first line on.
use nulix.Common.{
  ℕ, zero, suc, ◌+◌, ◌-◌, ◌*◌, ◌%◌, ◌≤◌, ◌<◌, ◌≡◌, refl, ◌∙◌, ap, arith, List, length, set,
  length-set, ◌⊎◌, inl, get_or, get_or-set_self, get_or-set_ne, true, ℕ_discrete,
}
use nulix.Screen.Buffer.{Screenbuf, pos, sb_addline, copy_words, copy_rows, sb_sync, cursor_update}
use nulix.Screen.Pointers.{sb_addline-pos}
use nulix.Screen.Bounds.{Within}

pub record Copied (words src : List ℕ) (dst from n : ℕ) (out : List ℕ) : Type 0 where
  pub size : length out ≡ length words
  pub inside : (k : ℕ) → k < n → get_or out (dst + k) 0 ≡ get_or src (from + k) 0
  pub outside : (k : ℕ) → ((k < dst) ⊎ (dst + n ≤ k)) → get_or out k 0 ≡ get_or words k 0

copy_words-Copied :
    (words : List ℕ) (dst : ℕ) (src : List ℕ) (from n : ℕ)
    → dst + n ≤ length words
    → Copied words src dst from n (copy_words words dst src from n)
unfolding copy_words
copy_words-Copied words dst src from zero h = record {
  size = refl;
  inside = λ k lt. absurd (omega arith);
  outside = λ k o. refl;
}
copy_words-Copied words dst src from (suc n) h =
    let first = set words dst (get_or src from 0) in
    let rest =
      copy_words-Copied first (dst + 1) src (from + 1) n
        (omega (arith, length-set words dst (get_or src from 0))) in
    record {
      size = rest.size ∙ length-set words dst (get_or src from 0);
      inside = λ k lt. elim (ℕ_discrete k 0) [
        | yes z ↦
            let to : dst + k ≡ dst = omega arith in
            let source : from + k ≡ from = omega arith in
            rw (to, source)
              (rest.outside dst (inl (omega arith))
                ∙ get_or-set_self words dst (get_or src from 0) 0 (omega arith))
        | no z ↦
            let to : dst + k ≡ dst + 1 + (k - 1) = omega arith in
            let source : from + k ≡ from + 1 + (k - 1) = omega arith in
            rw (to, source) (rest.inside (k - 1) (omega arith))
      ];
      outside = λ k o.
          rest.outside k (ground arith)
          ∙ get_or-set_ne words dst k (get_or src from 0) 0 (λ x. ground arith);
    }

pub record Shown (s : Screenbuf) (i n : ℕ) (vga out : List ℕ) : Type 0 where
  pub size : length out ≡ length vga
  pub rows :
      (r j : ℕ)
      → i ≤ r
      → r < i + n
      → j < 80
      → get_or out (r * 80 + j) 0 ≡ get_or s.buf ((s.viewport + r * 80) % 16000 + j) 0
  pub above : (k : ℕ) → k < i * 80 → get_or out k 0 ≡ get_or vga k 0

copy_rows-Shown :
    (s : Screenbuf) (i n : ℕ) (vga : List ℕ)
    → s.endbuf ≡ 16000
    → s.viewport < 16000
    → (i + n) * 80 ≤ length vga
    → Shown s i n vga (copy_rows s i n vga)
unfolding copy_rows
copy_rows-Shown s i zero vga e v h = record {
  size = refl;
  rows = λ r j lo hi jb. absurd (omega arith);
  above = λ k lt. refl;
}
copy_rows-Shown s i (suc n) vga e v h =
    let from = sb_addline s s.viewport (pos i) in
    let row = copy_words-Copied vga (i * 80) s.buf from 80 (omega arith) in
    let rest =
      copy_rows-Shown s (i + 1) n (copy_words vga (i * 80) s.buf from 80) e v
        (omega (arith, row.size)) in
    record {
      size = rest.size ∙ row.size;
      rows = λ r j lo hi jb. elim (ℕ_discrete r i) [
        | yes here ↦ rw here (
            rest.above (i * 80 + j) (omega arith)
            ∙ row.inside j jb
            ∙ ap (λ (p : ℕ). get_or s.buf (p + j) 0) (sb_addline-pos s s.viewport i e v))
        | no later ↦ rest.rows r j (omega arith) (omega arith) jb
      ];
      above = λ k lt. rest.above k (omega arith) ∙ row.outside k (inl (omega arith));
    }

sb_sync-vga : (s : Screenbuf) → s.loaded ≡ true → (sb_sync s).vga ≡ copy_rows s 0 25 s.vga
unfolding sb_sync cursor_update
sb_sync-vga s l = ground arith

-- A synchronised screen shows, in each of its 25 rows, the line of the buffer that is as far from
-- the first line in view, around the buffer's end. The buffer is loaded, its pointers are starts
-- of lines, and the VGA memory holds the rows.
pub sb_sync-Shown :
    {bound : ℕ} (s : Screenbuf)
    → Within bound s
    → s.loaded ≡ true
    → 2000 ≤ length s.vga
    → Shown s 0 25 s.vga (sb_sync s).vga
sb_sync-Shown s w l h =
    rw (sb_sync-vga s l) (copy_rows-Shown s 0 25 s.vga w.endbuf w.viewport.inside (omega arith))
