-- ===== src/Sim/Io/Vgc/Registers.antt =====
-- The registers of the coprocessor: sim/src/io/vector_graphics_coprocessor.cpp.
use irata.Prelude.{ℕ, ◌<◌, ◌≡◌, refl, Option, some, ◌==◌, if_both}
use irata.Sim.Io.Vgc.{VectorGraphicsCoprocessor, intensity, execute_command, apply_control, write}
use irata.Sim.Io.Vgc.Bresenham.{draw_line-LinePath}

-- The registers hold bytes.
abbrev pub Bytes : VectorGraphicsCoprocessor → Type 0
Bytes v =
    (v.cmd < 256) × (v.x0 < 256) × (v.y0 < 256) × (v.x1 < 256) × (v.y1 < 256) × (v.color < 256)

-- A call that returns, with bytes in the registers.
abbrev pub ReturnsBytes : Option VectorGraphicsCoprocessor → Type 0
ReturnsBytes result = (v : VectorGraphicsCoprocessor) × (result ≡ some v) × Bytes v

execute_command-ReturnsBytes :
    (v : VectorGraphicsCoprocessor) → Bytes v → ReturnsBytes (execute_command v)
unfolding execute_command
execute_command-ReturnsBytes v h =
    let (points, drawn, path, few) =
      draw_line-LinePath v.x0 v.y0 v.x1 v.y1 (intensity v) v.frame h.1 h.2 h.3 h.4 in
    if_both ReturnsBytes (v.cmd == 0x01) (_, refl, h)
      (if_both ReturnsBytes (v.cmd == 0x02) (_, refl, h)
        (if_both ReturnsBytes (v.cmd == 0x03) (rw drawn (_, refl, h)) (v, refl, h)))

apply_control-Bytes :
    (control : ℕ) (v : VectorGraphicsCoprocessor) → Bytes v → Bytes (apply_control control v)
unfolding apply_control
apply_control-Bytes control v h = if_both Bytes _ h h

-- Every write of a byte to the coprocessor returns, whatever the address and the command are, a line
-- included, and leaves bytes in the registers that had bytes.
pub write-ReturnsBytes :
    (v : VectorGraphicsCoprocessor) (address raw : ℕ)
    → Bytes v
    → raw < 256
    → ReturnsBytes (write v address raw)
unfolding write
write-ReturnsBytes v address raw h byte =
    if_both ReturnsBytes (address == 0x00) (_, refl, (byte, h.1, h.2, h.3, h.4, h.5))
      (if_both ReturnsBytes (address == 0x01) (_, refl, (h.0, byte, h.2, h.3, h.4, h.5))
        (if_both ReturnsBytes (address == 0x02) (_, refl, (h.0, h.1, byte, h.3, h.4, h.5))
          (if_both ReturnsBytes (address == 0x03) (_, refl, (h.0, h.1, h.2, byte, h.4, h.5))
            (if_both ReturnsBytes (address == 0x04) (_, refl, (h.0, h.1, h.2, h.3, byte, h.5))
              (if_both ReturnsBytes (address == 0x05) (_, refl, (h.0, h.1, h.2, h.3, h.4, byte))
                (if_both ReturnsBytes (address == 0x06)
                  (if_both ReturnsBytes (raw == 0x01) (execute_command-ReturnsBytes v h)
                    (v, refl, h))
                  (if_both ReturnsBytes (address == 0x07) (_, refl, apply_control-Bytes raw v h)
                    (v, refl, h))))))))
