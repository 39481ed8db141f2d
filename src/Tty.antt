-- ===== src/Tty.antt =====
-- kernel/tty.c: the text screen. Video memory is part of the memory, two bytes a character; the
-- registers of the CRT controller are a map from their index to their byte.
pub mod Screen
pub mod Text
use fi_rststep.Prelude.{
  ℕ, zero, suc, ◌+◌, ◌*◌, ◌/◌, ◌%◌, ◌-◌, List, [], ◌∷◌, ◌==◌, ltb, leb, if◌then◌else◌, length,
}
use fi_rststep.Prelude.Words.{u8, u32, sub32, ◌>>>◌, ◌<<<◌}
use fi_rststep.Str.{Memory, poke}

abbrev pub cga_base_addr : ℕ
cga_base_addr = 0xB8000

abbrev pub cga_mem_size : ℕ
cga_mem_size = 0x8000

abbrev pub width : ℕ
width = 80

abbrev pub hight : ℕ
hight = 25

abbrev pub blank : ℕ
blank = 0

-- the attribute that a reset fills in
abbrev pub fill_attr : ℕ
fill_attr = 7

abbrev pub crtc_start_addr_h : ℕ
crtc_start_addr_h = 0xC

abbrev pub crtc_start_addr_l : ℕ
crtc_start_addr_l = 0xD

abbrev pub crtc_cursor_h : ℕ
crtc_cursor_h = 0xE

abbrev pub crtc_cursor_l : ℕ
crtc_cursor_l = 0xF

-- the static `tty`, the memory and the controller's registers
pub record Tty : Type 0 where
  pub vmem_base : ℕ
  pub vmem_size : ℕ
  pub screen : ℕ
  pub cursor : ℕ
  pub attr : ℕ
  pub mem : Memory
  pub crtc : ℕ → ℕ

-- an index written to the one port, then a value to the other
abbrev pub set_crtc : ℕ → ℕ → Tty → Tty
set_crtc reg v t = record t { crtc = λ r. if r == reg then v else t.crtc r }

unfoldable pub set_screen : Tty → Tty
set_screen t =
    set_crtc crtc_start_addr_l (u8 t.screen) (set_crtc crtc_start_addr_h (u8 (t.screen >>> 8)) t)

unfoldable pub set_cursor : Tty → Tty
set_cursor t = set_crtc crtc_cursor_l (u8 t.cursor) (set_crtc crtc_cursor_h (u8 (t.cursor >>> 8)) t)

-- `while (p < p_end)`, with `left` characters to go
unfoldable pub blank_loop : ℕ → ℕ → Memory → Memory
blank_loop zero p mem = mem
blank_loop (suc left) p mem = blank_loop left (p + 2) (poke (p + 1) fill_attr (poke p blank mem))

unfoldable pub reset_vmem : Tty → Tty
reset_vmem t = record t {
  mem = blank_loop ((t.vmem_size + 1) / 2) (cga_base_addr + t.vmem_base) t.mem;
}

unfoldable pub set_char : ℕ → Tty → Tty
set_char c t =
    let p = u32 (cga_base_addr + u32 (t.cursor <<< 1)) in
    record t { mem = poke (u32 (p + 1)) t.attr (poke p (u8 c) t.mem) }

-- one character of `tty_write`: NUL, line feed, carriage return, backspace, delete, any other
unfoldable pub put_char : ℕ → Tty → Tty
put_char c t =
    if c == 0x00
    then t
    else (if c == 0x0A
        then (let down = u32 (t.cursor + width) in record t { cursor = down - down % width })
        else (if c == 0x0D
            then record t { cursor = t.cursor - t.cursor % width }
            else (if c == 0x08
                then record t { cursor = if t.cursor % width == 0 then t.cursor else t.cursor - 1 }
                else (if c == 0x7F
                    then set_char blank (record t { cursor = sub32 t.cursor 1 })
                    else (let t' = set_char c t in record t' { cursor = u32 (t'.cursor + 1) })))))

-- the `for` over the buffer
unfoldable pub put_chars : List ℕ → Tty → Tty
put_chars [] t = t
put_chars (c ∷ cs) t = put_chars cs (put_char c t)

-- A screen past the end of video memory starts again, cleared.
unfoldable pub scroll_up : Tty → Tty
scroll_up t =
    let screen = u32 (t.screen + width) in
    if ltb (u32 (t.vmem_base + t.vmem_size) >>> 1) (u32 (screen + width * hight))
    then reset_vmem (record t { screen = t.vmem_base >>> 1; cursor = t.vmem_base >>> 1 })
    else record t { screen = screen }

unfoldable pub scroll_down : Tty → Tty
scroll_down t =
    let screen = sub32 t.screen width in
    record t { screen = if ltb screen (t.vmem_base >>> 1) then t.vmem_base >>> 1 else screen }

-- the scrolling by a line when the cursor has left the screen
unfoldable pub scroll : Tty → Tty
scroll t =
    if leb (u32 (t.screen + width * hight)) t.cursor
    then scroll_up t
    else (if ltb t.cursor t.screen then scroll_down t else t)

-- the number of characters taken, and the new state
unfoldable pub tty_write : List ℕ → Tty → ℕ × Tty
tty_write buf t = (length buf, set_screen (set_cursor (scroll (put_chars buf t))))

unfoldable pub tty_clear : Tty → Tty
tty_clear t =
    set_cursor (
      set_screen (reset_vmem (record t { screen = t.vmem_base >>> 1; cursor = t.vmem_base >>> 1 })))

unfoldable pub tty_init : Tty → Tty
tty_init t = tty_clear (record t { vmem_base = 0; vmem_size = cga_mem_size; attr = 0x07 })
