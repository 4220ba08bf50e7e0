-- ===== src/Screen/Loaded.antt =====
-- Writing on a screen of kernel/screenbuf.c leaves it loaded, or not, as it was.
use nulix.Common.{ℕ, zero, suc, ◌≡◌, refl, arith, Bool, List, [], ◌∷◌, Option, none, some}
use nulix.Screen.Buffer.{Screenbuf, pos, negsuc, sb_sync, cursor_update}
use nulix.Screen.Output.{
  sb_scroll, sb_scroll_down, sb_write_word, next_line, push_top, sb_crlf, to_tab_stop, put_word,
  blank, crlf_if_full, sb_scroll_top, erase, previous_line, sb_backspace, sb_tabulation, sb_regular,
  sb_putchar, sb_putstr, then_put, show_cursor,
}

-- Whether a screen is loaded, or `b` if there is none.
abbrev pub loaded_or : Bool → Option Screenbuf → Bool
loaded_or b none = b
loaded_or b (some s) = s.loaded

pub loaded-sb_sync : (s : Screenbuf) → (sb_sync s).loaded ≡ s.loaded
unfolding sb_sync cursor_update
loaded-sb_sync s = ground arith

loaded-push_top : (s : Screenbuf) → (push_top (next_line s)).loaded ≡ s.loaded
unfolding push_top next_line sb_sync cursor_update
loaded-push_top s = ground arith

loaded-sb_scroll : (s : Screenbuf) → loaded_or s.loaded (sb_scroll s (pos 1)) ≡ s.loaded
unfolding sb_scroll sb_scroll_down sb_sync cursor_update
loaded-sb_scroll s = ground arith

pub loaded-sb_scroll_top : (s : Screenbuf) → (sb_scroll_top s).loaded ≡ s.loaded
unfolding sb_scroll_top
loaded-sb_scroll_top s = loaded-sb_sync _

pub loaded-sb_scroll_back : (s : Screenbuf) → loaded_or s.loaded (sb_scroll s (negsuc 0)) ≡ s.loaded
unfolding sb_scroll sb_scroll_top sb_sync cursor_update
loaded-sb_scroll_back s = ground arith

loaded-sb_crlf : (s : Screenbuf) → loaded_or s.loaded (sb_crlf s) ≡ s.loaded
unfolding sb_crlf
loaded-sb_crlf s = ground (arith, loaded-push_top s, loaded-sb_scroll (push_top (next_line s)))

loaded-to_tab_stop : (n : ℕ) (s : Screenbuf) → (to_tab_stop n s).loaded ≡ s.loaded
unfolding to_tab_stop sb_write_word
loaded-to_tab_stop zero s = refl
loaded-to_tab_stop (suc n) s = ground (arith, loaded-to_tab_stop n (blank s))

loaded-crlf_if_full : (s : Screenbuf) → loaded_or s.loaded (crlf_if_full s) ≡ s.loaded
loaded-crlf_if_full s = ground (arith, loaded-sb_crlf s)

loaded-sb_tabulation : (s : Screenbuf) → loaded_or s.loaded (sb_tabulation s) ≡ s.loaded
unfolding sb_tabulation
loaded-sb_tabulation s =
    ground (arith, loaded-crlf_if_full (to_tab_stop 4 s), loaded-to_tab_stop 4 s)

loaded-sb_regular : (s : Screenbuf) (c : ℕ) → loaded_or s.loaded (sb_regular s c) ≡ s.loaded
unfolding sb_regular put_word
loaded-sb_regular s c = loaded-crlf_if_full (put_word s c)

loaded-sb_backspace : (s : Screenbuf) → loaded_or s.loaded (sb_backspace s) ≡ s.loaded
unfolding sb_backspace sb_scroll sb_scroll_top erase previous_line sb_write_word sb_sync
    cursor_update
loaded-sb_backspace s = ground arith

loaded-show_cursor :
    (s : Screenbuf) (o : Option Screenbuf)
    → loaded_or s.loaded o ≡ s.loaded
    → loaded_or s.loaded (show_cursor o) ≡ s.loaded
unfolding cursor_update
loaded-show_cursor s none h = refl
loaded-show_cursor s (some t) h = h

pub loaded-sb_putchar : (s : Screenbuf) (c : ℕ) → loaded_or s.loaded (sb_putchar s c) ≡ s.loaded
unfolding sb_putchar
loaded-sb_putchar s c = loaded-show_cursor s _ (
    ground (
      arith,
      loaded-sb_crlf s,
      loaded-sb_tabulation s,
      loaded-sb_backspace s,
      loaded-sb_regular s c,
    ))

loaded-then_put :
    (b : Bool) (put : Screenbuf → Option Screenbuf) (o : Option Screenbuf)
    → ((s : Screenbuf) → loaded_or s.loaded (put s) ≡ s.loaded)
    → loaded_or b o ≡ b
    → loaded_or b (then_put put o) ≡ b
loaded-then_put b put none h e = refl
loaded-then_put b put (some s) h e = rw (← e) (h s)

pub loaded-sb_putstr :
    (s : List ℕ) (sb : Screenbuf) → loaded_or sb.loaded (sb_putstr s sb) ≡ sb.loaded
unfolding sb_putstr
loaded-sb_putstr [] sb = refl
loaded-sb_putstr (c ∷ s) sb =
    loaded-then_put sb.loaded (sb_putstr s) (sb_putchar sb c) (loaded-sb_putstr s)
      (loaded-sb_putchar sb c)
