-- ===== src/Screen/Pointers.antt =====
-- The pointers of kernel/screenbuf.c stay at starts of lines of `buf`.
use nulix.Common.{
  ℕ, zero, suc, ◌+◌, ◌-◌, ◌*◌, ◌%◌, ◌≤◌, ◌<◌, ◌≡◌, refl, arith, List, length, set, length-set,
}
use nulix.Screen.Buffer.{Screenbuf, pos, negsuc, wrap_down, wrap_up, sb_addline, sb_memset}

pub record IsLine (p : ℕ) : Type 0 where
  pub inside : p < 16000
  pub aligned : p % 80 ≡ 0

wrap_down_lem : (fuel x : ℕ) → x < 16000 * (fuel + 1) → wrap_down fuel 16000 x ≡ x % 16000
unfolding wrap_down
wrap_down_lem zero x h = ground arith
wrap_down_lem (suc fuel) x h = ground (arith, wrap_down_lem fuel (x - 16000))

wrap_up_lem :
    (fuel x : ℕ) → 1 ≤ x → x ≤ 16000 * fuel → wrap_up fuel 16000 x ≡ (16000 * fuel - x) % 16000
unfolding wrap_up
wrap_up_lem zero x h k = absurd (omega arith)
wrap_up_lem (suc fuel) x h k = ground (arith, wrap_up_lem fuel (x - 16000))

-- A step ahead is taken modulo the buffer's size, and so is a step back.
pub sb_addline-pos :
    (sb : Screenbuf) (a n : ℕ)
    → sb.endbuf ≡ 16000
    → a < 16000
    → sb_addline sb a (pos n) ≡ (a + n * 80) % 16000
unfolding sb_addline
sb_addline-pos sb a n e h = ground (arith, wrap_down_lem (n + 1) (a + n * 80))

pub sb_addline-back :
    (sb : Screenbuf) (a : ℕ)
    → sb.endbuf ≡ 16000
    → a < 16000
    → sb_addline sb a (negsuc 0) ≡ (a + 15920) % 16000
unfolding sb_addline
sb_addline-back sb a e h = ground (arith, wrap_down_lem 1 (a - 80), wrap_up_lem 2 (80 - a))

pub sb_addline-IsLine :
    (sb : Screenbuf) (a n : ℕ) → sb.endbuf ≡ 16000 → IsLine a → IsLine (sb_addline sb a (pos n))
sb_addline-IsLine sb a n e l = record {
  inside = omega (arith, sb_addline-pos sb a n e l.inside);
  aligned = omega (arith, sb_addline-pos sb a n e l.inside, l.aligned);
}

pub sb_addline_back-IsLine :
    (sb : Screenbuf) (a : ℕ) → sb.endbuf ≡ 16000 → IsLine a → IsLine (sb_addline sb a (negsuc 0))
sb_addline_back-IsLine sb a e l = record {
  inside = omega (arith, sb_addline-back sb a e l.inside);
  aligned = omega (arith, sb_addline-back sb a e l.inside, l.aligned);
}

pub length-sb_memset :
    (words : List ℕ) (ptr word n : ℕ) → length (sb_memset words ptr word n) ≡ length words
unfolding sb_memset
length-sb_memset words ptr word zero = refl
length-sb_memset words ptr word (suc n) =
    omega (arith, length-sb_memset (set words ptr word) (ptr + 1) word n, length-set words ptr word)
