-- ===== src/Sim/Io/Vgc.antt =====
-- The vector graphics coprocessor: sim/src/io/vector_graphics_coprocessor.cpp, with the image backend
-- of sim/src/io/vgc_backend.cpp. The framebuffer is what each of its cells holds.
pub mod Rounds
pub mod Bresenham
pub mod Registers
use irata.Prelude.{
  ℕ, zero, suc, ◌+◌, ◌-◌, ◌*◌, ◌%◌, ◌^◌, bit_and, Bool, true, false, not, ◌&&◌, ◌||◌, Option, none,
  some, ◌==◌, ltb, leb, if◌then◌else◌,
}
use irata.Prelude.Int.{ℤ, pos, negsuc, ◌+ℤ◌, ◌-ℤ◌, abs, leb_ℤ, ltb_ℤ, equal_ℤ}
use irata.Bits.{u8}

-- `ImageBackend::framebuffer_`
abbrev pub Framebuffer : Type 0
Framebuffer = ℕ → ℕ

abbrev pub width : ℕ
width = 256

abbrev pub height : ℕ
height = 256

-- `ImageBackend::clear`
unfoldable pub clear : ℕ → Framebuffer → Framebuffer
clear intensity frame cell = intensity

-- `ImageBackend::draw_point`
unfoldable pub draw_point : ℕ → ℕ → ℕ → Framebuffer → Framebuffer
draw_point x y intensity frame =
    if leb width x || leb height y
    then frame
    else (λ cell. if cell == y * width + x then intensity else frame cell)

-- `static_cast<uint8_t>` of an `int`.
abbrev pub u8_ℤ : ℤ → ℕ
u8_ℤ (pos n) = u8 n
u8_ℤ (negsuc n) = 255 - u8 n

-- The constants of a line.
pub record Line : Type 0 where
  pub target_x : ℤ
  pub target_y : ℤ
  pub dx : ℤ
  pub dy : ℤ
  pub step_x : ℤ
  pub step_y : ℤ
  pub intensity : ℕ

-- The loop of `ImageBackend::draw_line`, which has no result where the fuel is spent.
unfoldable pub draw_loop : ℕ → Line → ℤ → ℤ → ℤ → Framebuffer → Option Framebuffer
unfolding draw_point
draw_loop zero l x y error frame = none
draw_loop (suc fuel) l x y error frame =
    let drawn = draw_point (u8_ℤ x) (u8_ℤ y) l.intensity frame in
    let error2 = error +ℤ error in
    let go_x = leb_ℤ l.dy error2 in
    let go_y = leb_ℤ error2 l.dx in
    let error_x = if go_x then error +ℤ l.dy else error in
    let rest =
      draw_loop fuel l (if go_x then x +ℤ l.step_x else x) (if go_y then y +ℤ l.step_y else y)
        (if go_y then error_x +ℤ l.dx else error_x) drawn in
    if equal_ℤ x l.target_x && equal_ℤ y l.target_y then some drawn else rest

-- The constants as `ImageBackend::draw_line` computes them.
unfoldable pub new_line : ℕ → ℕ → ℕ → ℕ → ℕ → Line
unfolding abs
new_line x0 y0 x1 y1 intensity = record {
  target_x = pos x1;
  target_y = pos y1;
  dx = abs (pos x1 -ℤ pos x0);
  dy = pos 0 -ℤ abs (pos y1 -ℤ pos y0);
  step_x = if ltb_ℤ (pos x0) (pos x1) then pos 1 else negsuc 0;
  step_y = if ltb_ℤ (pos y0) (pos y1) then pos 1 else negsuc 0;
  intensity = intensity;
}

-- `ImageBackend::draw_line`, with fuel for every line between two bytes' coordinates.
unfoldable pub draw_line : ℕ → ℕ → ℕ → ℕ → ℕ → Framebuffer → Option Framebuffer
unfolding draw_loop new_line
draw_line x0 y0 x1 y1 intensity frame =
    let l = new_line x0 y0 x1 y1 intensity in draw_loop 512 l (pos x0) (pos y0) (l.dx +ℤ l.dy) frame

pub record VectorGraphicsCoprocessor : Type 0 where
  pub frame : Framebuffer
  pub cmd : ℕ
  pub x0 : ℕ
  pub y0 : ℕ
  pub x1 : ℕ
  pub y1 : ℕ
  pub color : ℕ
  pub irq_enabled : Bool

abbrev pub intensity : VectorGraphicsCoprocessor → ℕ
intensity v = u8 (bit_and v.color 0x03)

unfoldable pub read : VectorGraphicsCoprocessor → ℕ → ℕ
read v address = 0

-- `ExecuteCommand`; no result where a line's fuel is spent.
unfoldable pub execute_command : VectorGraphicsCoprocessor → Option VectorGraphicsCoprocessor
unfolding clear draw_point draw_line
execute_command v =
    if v.cmd == 0x01
    then some (record v { frame = clear (intensity v) v.frame })
    else (if v.cmd == 0x02
        then some (record v { frame = draw_point v.x0 v.y0 (intensity v) v.frame })
        else (if v.cmd == 0x03
            then elim (draw_line v.x0 v.y0 v.x1 v.y1 (intensity v) v.frame) [
              | none ↦ none
              | some drawn ↦ some (record v { frame = drawn })
            ]
            else some v))

-- `ApplyControl`; the image backend presents nothing.
unfoldable pub apply_control : ℕ → VectorGraphicsCoprocessor → VectorGraphicsCoprocessor
unfolding clear
apply_control control v =
    let enabled = record v { irq_enabled = not (bit_and control 0x80 == 0) } in
    if not (bit_and control 0x01 == 0)
    then record enabled { frame = clear (intensity v) v.frame }
    else enabled

unfoldable pub write : VectorGraphicsCoprocessor → ℕ → ℕ → Option VectorGraphicsCoprocessor
unfolding execute_command apply_control
write v address raw =
    if address == 0x00
    then some (record v { cmd = raw })
    else (if address == 0x01
        then some (record v { x0 = raw })
        else (if address == 0x02
            then some (record v { y0 = raw })
            else (if address == 0x03
                then some (record v { x1 = raw })
                else (if address == 0x04
                    then some (record v { y1 = raw })
                    else (if address == 0x05
                        then some (record v { color = raw })
                        else (if address == 0x06
                            then (if raw == 0x01 then execute_command v else some v)
                            else (if address == 0x07
                                then some (apply_control raw v)
                                else some v)))))))
