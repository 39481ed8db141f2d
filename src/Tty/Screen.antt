-- ===== src/Tty/Screen.antt =====
-- kernel/tty.c: the part of video memory that is shown.
use fi_rststep.Prelude.{ℕ, ◌+◌, ◌*◌, ◌/◌, ◌%◌, ◌≤◌, ◌≡◌, refl, List, [], ◌∷◌, arith, length}
use fi_rststep.Tty.{
  Tty, width, hight, cga_mem_size, crtc_start_addr_h, crtc_start_addr_l, set_screen, set_cursor,
  set_char, reset_vmem, put_char, put_chars, scroll_up, scroll_down, scroll, tty_write,
}

-- The screen starts at a line of video memory and lies in it.
pub record IsTty (t : Tty) : Type 0 where
  pub base : t.vmem_base ≡ 0
  pub size : t.vmem_size ≡ cga_mem_size
  pub line : t.screen % width ≡ 0
  pub fits : t.screen + width * hight ≤ cga_mem_size / 2

-- The controller shows the screen.
abbrev pub IsShown : Tty → Type 0
IsShown t = t.crtc crtc_start_addr_h * 256 + t.crtc crtc_start_addr_l ≡ t.screen

put_char-IsTty : (c : ℕ) (t : Tty) → IsTty t → IsTty (put_char c t)
unfolding put_char set_char
put_char-IsTty c t is = record {
  base = ground (arith, is.base);
  size = ground (arith, is.size);
  line = ground (arith, is.line);
  fits = ground (arith, is.fits);
}

put_chars-IsTty : (cs : List ℕ) (t : Tty) → IsTty t → IsTty (put_chars cs t)
unfolding put_chars
put_chars-IsTty [] t is = is
put_chars-IsTty (c ∷ cs) t is = put_chars-IsTty cs (put_char c t) (put_char-IsTty c t is)

scroll-IsTty : (t : Tty) → IsTty t → IsTty (scroll t)
unfolding scroll scroll_up scroll_down reset_vmem
scroll-IsTty t is = record {
  base = ground (arith, is.base);
  size = ground (arith, is.size);
  line = ground (arith, is.line, is.base, is.fits);
  fits = ground (arith, is.fits, is.base, is.size, is.line);
}

shown : (t : Tty) → IsTty t → IsShown (set_screen t)
unfolding set_screen
shown t is = ground (arith, is.fits)

-- If the screen starts at a line of video memory and lies in it, then after `tty_write` of any
-- bytes it still does, `tty_write` returns their number, and the start address in the display
-- controller is the screen's.
pub tty_write-IsTty :
    (buf : List ℕ) (t : Tty)
    → IsTty t
    → let (n, t') = tty_write buf t in (n ≡ length buf) × IsTty t' × IsShown t'
unfolding tty_write set_screen set_cursor
tty_write-IsTty buf t is =
    let is' = scroll-IsTty (put_chars buf t) (put_chars-IsTty buf t is) in
    (
      refl,
      record { base = is'.base; size = is'.size; line = is'.line; fits = is'.fits },
      ground (arith, is'.fits),
    )
