-- ===== src/Sim/Io/Vgc/Bresenham.antt =====
-- The points that a line of the image backend draws: sim/src/io/vgc_backend.cpp.
use irata.Prelude.{
  ℕ, zero, suc, ◌+◌, ◌*◌, ◌≤◌, ◌<◌, ◌≡◌, refl, sym, ap, ap₂, ◌∙◌, subst, Bool, ◌&&◌, Option, some,
  List, [], ◌∷◌, length, leb, if◌then◌else◌, arith, bit, Bool-cases, inl, inr,
}
use irata.Prelude.Int.{ℤ, pos, negsuc, sub_ℕ, ◌+ℤ◌, ◌-ℤ◌, ltb_ℤ, equal_ℤ, abs-diff}
use irata.Sim.Io.Vgc.{Framebuffer, draw_point, Line, draw_loop, new_line, draw_line}
use irata.Sim.Io.Vgc.Rounds.{
  dist, Towards, ErrorParts, go_x-pos, go_y-pos, go_one, go_x-test, go_y-test, step_to, coordinate,
  error_next, go_bit, bit-le, u8-small,
}

-- Points from (x, y) to the target, each another neighbour of the one before it, and on the way.
abbrev pub LinePath : ℕ → ℕ → ℕ → ℕ → List (ℕ × ℕ) → Type 0
LinePath target_x target_y x y [] = ⊥
LinePath target_x target_y x y (p ∷ []) = (p ≡ (x, y)) × (x ≡ target_x) × (y ≡ target_y)
LinePath target_x target_y x y (p ∷ q ∷ rest) =
    (p ≡ (x, y))
    × Towards x q.0 target_x
    × Towards y q.1 target_y
    × (1 ≤ dist x q.0 + dist y q.1)
    × LinePath target_x target_y q.0 q.1 (q ∷ rest)

-- The frame behind drawing some points in turn.
abbrev pub draw_points : ℕ → List (ℕ × ℕ) → Framebuffer → Framebuffer
draw_points intensity [] frame = frame
draw_points intensity (p ∷ ps) frame = draw_points intensity ps (draw_point p.0 p.1 intensity frame)

module _ (target_x target_y d e intensity : ℕ) (step_x step_y : ℤ) (small_x : target_x < 256)
    (small_y : target_y < 256) where
  abbrev line : Line
  line = record {
    target_x = pos target_x;
    target_y = pos target_y;
    dx = pos d;
    dy = pos 0 -ℤ pos e;
    step_x = step_x;
    step_y = step_y;
    intensity = intensity;
  }

  -- A round of the loop starts at (x, y), with `p` and `q` still to go.
  abbrev Going : ℕ → ℕ → ℕ → ℕ → ℕ → ℕ → Type 0
  Going x y p q a b =
      (dist x target_x ≡ p)
      × (dist y target_y ≡ q)
      × (1 ≤ p → step_x ≡ step_to x target_x)
      × (1 ≤ q → step_y ≡ step_to y target_y)
      × ErrorParts d e p q a b

  abbrev Drawn : ℕ → ℕ → ℕ → ℤ → ℕ → Framebuffer → Type 0
  Drawn fuel x y error more frame =
      (points : List (ℕ × ℕ)) × (draw_loop fuel line (pos x) (pos y) error frame
        ≡ some (draw_points intensity points frame))
      × LinePath target_x target_y x y points
      × (length points ≤ more + 1)

  abbrev round : ℕ → ℕ → ℕ → ℕ → ℕ → Framebuffer → Bool → Bool → Option Framebuffer
  round fuel x y a b frame go_x go_y =
      let error_x = if go_x then sub_ℕ a b +ℤ (pos 0 -ℤ pos e) else sub_ℕ a b in
      draw_loop fuel line (if go_x then pos x +ℤ step_x else pos x)
        (if go_y then pos y +ℤ step_y else pos y) (if go_y then error_x +ℤ pos d else error_x) frame

  loop_at :
      (fuel : ℕ) (frame : Framebuffer) {u u' v v' z z' : ℤ}
      → u ≡ u'
      → v ≡ v'
      → z ≡ z'
      → draw_loop fuel line u v z frame ≡ draw_loop fuel line u' v' z' frame
  loop_at fuel frame h g k i = draw_loop fuel line (h i) (g i) (k i) frame

  -- What a round that does not end the loop moves.
  next_round :
      (x y p q a b : ℕ)
      → Going x y p q a b
      → 1 ≤ p + q
      → (x' y' p' q' : ℕ) × ((if leb (b + b) (a + a + e) then pos x +ℤ step_x else pos x) ≡ pos x')
        × ((if leb (a + a) (b + b + d) then pos y +ℤ step_y else pos y) ≡ pos y')
        × ((let go_x = leb (b + b) (a + a + e) in
              let error_x = if go_x then sub_ℕ a b +ℤ (pos 0 -ℤ pos e) else sub_ℕ a b in
              if leb (a + a) (b + b + d) then error_x +ℤ pos d else error_x)
            ≡ sub_ℕ (d + p' * e) (e + q' * d))
        × Going x' y' p' q' (d + p' * e) (e + q' * d)
        × (p' + q' < p + q)
        × Towards x x' target_x
        × Towards y y' target_y
        × (1 ≤ dist x x' + dist y y')
  next_round x y p q a b (px, py, sx, sy, parts) some_left =
      let go_x = leb (b + b) (a + a + e) in
      let go_y = leb (a + a) (b + b + d) in
      let (x', p', moved_x, left_x, count_x, same_x, far_x) =
        coordinate go_x x target_x p step_x px (go_x-pos d e p q a b parts some_left) sx in
      let (y', q', moved_y, left_y, count_y, same_y, far_y) =
        coordinate go_y y target_y q step_y py (go_y-pos d e p q a b parts some_left) sy in
      let one : 1 ≤ bit go_x + bit go_y = go_bit go_x go_y (go_one d e a b) in
      let next : ErrorParts d e (p' + bit go_x) (q' + bit go_y) a b =
        subst (λ (n : ℕ). ErrorParts d e n (q' + bit go_y) a b) (sym count_x)
          (subst (λ (n : ℕ). ErrorParts d e p n a b) (sym count_y) parts) in
      (
        x',
        y',
        p',
        q',
        moved_x,
        moved_y,
        error_next d e go_x go_y p' q' a b next,
        (
          left_x,
          left_y,
          same_x,
          same_y,
          (refl, refl, omega (arith, count_x, parts.2), omega (arith, count_y, parts.3)),
        ),
        omega (arith, one, count_x, count_y),
        (omega (arith, far_x, bit-le go_x), omega (arith, far_x, left_x, count_x, px)),
        (omega (arith, far_y, bit-le go_y), omega (arith, far_y, left_y, count_y, py)),
        omega (arith, one, far_x, far_y),
      )

  extend :
      (x y x' y' : ℕ) (points : List (ℕ × ℕ))
      → LinePath target_x target_y x' y' points
      → Towards x x' target_x
      → Towards y y' target_y
      → 1 ≤ dist x x' + dist y y'
      → LinePath target_x target_y x y ((x, y) ∷ points)
  extend x y x' y' [] path tx ty one = absurd path
  extend x y x' y' (p ∷ []) path tx ty one =
      subst (λ (r : ℕ × ℕ). LinePath target_x target_y x y ((x, y) ∷ r ∷ [])) (sym path.0)
        (refl, tx, ty, one, (refl, path.1, path.2))
  extend x y x' y' (p ∷ q ∷ rest) path tx ty one =
      subst (λ (r : ℕ × ℕ). LinePath target_x target_y x y ((x, y) ∷ r ∷ q ∷ rest)) (sym path.0)
        (refl, tx, ty, one, (refl, path.1, path.2, path.3, path.4))

  draw_loop-Drawn :
      (fuel x y p q a b : ℕ) (frame : Framebuffer)
      → Going x y p q a b
      → x < 256
      → y < 256
      → p + q < fuel
      → Drawn fuel x y (sub_ℕ a b) (p + q) frame
  unfolding draw_loop
  draw_loop-Drawn zero x y p q a b frame h bx by enough = absurd (omega arith)
  draw_loop-Drawn (suc fuel) x y p q a b frame h bx by enough =
      let there : Bool = equal_ℤ (pos x) (pos target_x) && equal_ℤ (pos y) (pos target_y) in
      let drawn = draw_point x y intensity frame in
      elim (Bool-cases there) [
        | inl on ↦ (
          (x, y) ∷ [],
          rw (on, u8-small x bx, u8-small y by) refl,
          (refl, ground (arith, on), ground (arith, on)),
          omega arith,
        )
        | inr off ↦
            let (x', y', p', q', moved_x, moved_y, error, going, fewer, on_x, on_y, one) =
              next_round x y p q a b h (ground (arith, off, h.0, h.1)) in
            let (points, run, path, few) =
              draw_loop-Drawn fuel x' y' p' q' (d + p' * e) (e + q' * d) drawn going
                (stays x x' target_x bx small_x on_x.1) (stays y y' target_y by small_y on_y.1)
                (omega (arith, fewer, enough)) in
            (
              (x, y) ∷ points,
              rw (off, u8-small x bx, u8-small y by)
                  (ap₂ (round fuel x y a b drawn) (go_x-test e a b) (go_y-test d a b)
                    ∙ loop_at fuel drawn moved_x moved_y error
                    ∙ run),
              extend x y x' y' points path on_x on_y one,
              omega (arith, few, fewer),
            )
      ]
    where
      stays :
          (z z' target : ℕ)
          → z < 256
          → target < 256
          → dist z z' + dist z' target ≡ dist z target
          → z' < 256
      stays z z' target low high far = omega arith

step_start : (a b : ℕ) → (if ltb_ℤ (pos a) (pos b) then pos 1 else negsuc 0) ≡ step_to a b
step_start a b = ground arith

error_start : (d e : ℕ) → pos d +ℤ (pos 0 -ℤ pos e) ≡ sub_ℕ (d + d * e) (e + e * d)
unfolding ◌+ℤ◌ ◌-ℤ◌
error_start d e = go (d * e) (e * d) (omega arith)
  where
    go : (m n : ℕ) → m ≡ n → pos d +ℤ (pos 0 -ℤ pos e) ≡ sub_ℕ (d + m) (e + n)
    go m n h = ground arith

new_line-line :
    (x0 y0 x1 y1 intensity : ℕ)
    → new_line x0 y0 x1 y1 intensity ≡ record {
      target_x = pos x1;
      target_y = pos y1;
      dx = pos (dist x0 x1);
      dy = pos 0 -ℤ pos (dist y0 y1);
      step_x = step_to x0 x1;
      step_y = step_to y0 y1;
      intensity = intensity;
    }
unfolding new_line
new_line-line x0 y0 x1 y1 intensity i = record {
  target_x = pos x1;
  target_y = pos y1;
  dx = abs-diff x0 x1 i;
  dy = pos 0 -ℤ abs-diff y0 y1 i;
  step_x = step_start x0 x1 i;
  step_y = step_start y0 y1 i;
  intensity = intensity;
}

draw_line-start :
    (x0 y0 x1 y1 intensity : ℕ) (frame : Framebuffer)
    → draw_line x0 y0 x1 y1 intensity frame
      ≡ draw_loop 512
          (new_line x0 y0 x1 y1 intensity)
          (pos x0)
          (pos y0)
          ((new_line x0 y0 x1 y1 intensity).dx +ℤ (new_line x0 y0 x1 y1 intensity).dy)
          frame
unfolding draw_line
draw_line-start x0 y0 x1 y1 intensity frame = refl

-- Between any two points of bytes `draw_line` ends, within its fuel: it draws at most one point more than the distances
-- in x and y together, in a path from the first point to the last where each point is a neighbour of
-- the one before it, another one, and on the way to the end in both coordinates, and it changes nothing else of the frame.
pub draw_line-LinePath :
    (x0 y0 x1 y1 intensity : ℕ) (frame : Framebuffer)
    → x0 < 256
    → y0 < 256
    → x1 < 256
    → y1 < 256
    → (points : List (ℕ × ℕ)) × (draw_line x0 y0 x1 y1 intensity frame
        ≡ some (draw_points intensity points frame))
      × LinePath x1 y1 x0 y0 points
      × (length points ≤ dist x0 x1 + dist y0 y1 + 1)
draw_line-LinePath x0 y0 x1 y1 intensity frame bx by tx ty =
    let d = dist x0 x1 in
    let e = dist y0 y1 in
    let (points, run, path, few) =
      draw_loop-Drawn x1 y1 d e intensity (step_to x0 x1) (step_to y0 y1) tx ty 512 x0 y0 d e
        (d + d * e) (e + e * d) frame
        (refl, refl, λ more. refl, λ more. refl, (refl, refl, omega arith, omega arith)) bx by
        (omega arith) in
    (
      points,
      draw_line-start x0 y0 x1 y1 intensity frame
          ∙ ap (λ (l : Line). draw_loop 512 l (pos x0) (pos y0) (l.dx +ℤ l.dy) frame)
              (new_line-line x0 y0 x1 y1 intensity)
          ∙ ap
              (λ (z : ℤ).
                draw_loop 512 (line x1 y1 d e intensity (step_to x0 x1) (step_to y0 y1) tx ty)
                  (pos x0) (pos y0) z frame)
              (error_start d e)
          ∙ run,
      path,
      few,
    )
