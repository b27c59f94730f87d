-- ===== src/Sim/Io/Vgc/Rounds.antt =====
-- One round of the loop that draws a line: sim/src/io/vgc_backend.cpp.
use irata.Prelude.{
  ℕ, zero, suc, ◌+◌, ◌-◌, ◌*◌, ◌≤◌, ◌<◌, ◌≡◌, refl, ap, ◌∙◌, Bool, true, false, ltb, leb,
  if◌then◌else◌, arith, bit, ltb→lt, Bool-cases, inl, inr,
}
use irata.Prelude.Int.{ℤ, pos, negsuc, sub_ℕ, ◌+ℤ◌, ◌-ℤ◌, leb_ℤ, sub_ℕ-eq, sub_ℕ-minus, sub_ℕ-plus}
use irata.Sim.Io.Vgc.{u8_ℤ}

-- How far apart two coordinates are.
abbrev pub dist : ℕ → ℕ → ℕ
dist a b = a - b + (b - a)

-- The second coordinate is the first or the next one on the way to the target.
abbrev pub Towards : ℕ → ℕ → ℕ → Type 0
Towards a b target = (dist a b ≤ 1) × (dist a b + dist b target ≡ dist a target)

-- What the two tests of a round say of the distances still to go, where `a` - `b` is the error.
abbrev pub ErrorParts : ℕ → ℕ → ℕ → ℕ → ℕ → ℕ → Type 0
ErrorParts d e p q a b = (a ≡ d + p * e) × (b ≡ e + q * d) × (p ≤ d) × (q ≤ e)

at_least : (p e : ℕ) → 1 ≤ p → e ≤ p * e
at_least zero e h = absurd (omega arith)
at_least (suc p) e h = omega arith

pub go_x-pos :
    (d e p q a b : ℕ) → ErrorParts d e p q a b → 1 ≤ p + q → leb (b + b) (a + a + e) ≡ true → 1 ≤ p
go_x-pos d e zero q a b h some_left go =
    let far = at_least q d (omega arith) in ground (arith, far, go, h)
go_x-pos d e (suc p) q a b h some_left go = omega arith

pub go_y-pos :
    (d e p q a b : ℕ) → ErrorParts d e p q a b → 1 ≤ p + q → leb (a + a) (b + b + d) ≡ true → 1 ≤ q
go_y-pos d e p zero a b h some_left go =
    let far = at_least p e (omega arith) in ground (arith, far, go, h)
go_y-pos d e p (suc q) a b h some_left go = omega arith

pub go_one : (d e a b : ℕ) → leb (b + b) (a + a + e) ≡ false → leb (a + a) (b + b + d) ≡ true
go_one d e a b h = ground arith

pub go_x-test :
    (e a b : ℕ) → leb_ℤ (pos 0 -ℤ pos e) (sub_ℕ a b +ℤ sub_ℕ a b) ≡ leb (b + b) (a + a + e)
unfolding ◌-ℤ◌ ◌+ℤ◌
go_x-test e a b = ground arith

pub go_y-test : (d a b : ℕ) → leb_ℤ (sub_ℕ a b +ℤ sub_ℕ a b) (pos d) ≡ leb (a + a) (b + b + d)
unfolding ◌+ℤ◌
go_y-test d a b = ground arith

-- One step of a coordinate.
abbrev pub step_to : ℕ → ℕ → ℤ
step_to a target = if ltb a target then pos 1 else negsuc 0

advance :
    (a target p : ℕ) (step : ℤ)
    → dist a target ≡ p
    → 1 ≤ p
    → step ≡ step_to a target
    → (b : ℕ) × (pos a +ℤ step ≡ pos b)
      × (dist a b ≡ 1)
      × (dist b target + 1 ≡ p)
      × (1 ≤ dist b target → step ≡ step_to b target)
unfolding ◌+ℤ◌
advance a target p step h left same = elim (Bool-cases (ltb a target)) [
  | inl up ↦ (
    a + 1,
    ground (arith, same),
    omega (arith, ltb→lt a target up),
    omega (arith, ltb→lt a target up),
    λ more. ground (arith, same),
  )
  | inr down ↦ (
    a - 1,
    ground (arith, same),
    ground (arith, down),
    ground (arith, down),
    λ more. ground (arith, same),
  )
]

-- A coordinate behind a round that may step it.
pub coordinate :
    (go : Bool) (a target p : ℕ) (step : ℤ)
    → dist a target ≡ p
    → (go ≡ true → 1 ≤ p)
    → (1 ≤ p → step ≡ step_to a target)
    → (b : ℕ) × (left : ℕ) × ((if go then pos a +ℤ step else pos a) ≡ pos b)
      × (dist b target ≡ left)
      × (left + bit go ≡ p)
      × (1 ≤ left → step ≡ step_to b target)
      × (dist a b ≡ bit go)
coordinate true a target p step h go same =
    let (b, moved, one, closer, still) = advance a target p step h (go refl) (same (go refl)) in
    (b, dist b target, moved, refl, closer, still, one)
coordinate false a target p step h go same = (a, p, refl, h, omega arith, same, omega arith)

-- The error behind a round.
pub error_next :
    (d e : ℕ) (go_x go_y : Bool) (p q a b : ℕ)
    → ErrorParts d e (p + bit go_x) (q + bit go_y) a b
    → (if go_y
        then (if go_x then sub_ℕ a b +ℤ (pos 0 -ℤ pos e) else sub_ℕ a b) +ℤ pos d
        else (if go_x then sub_ℕ a b +ℤ (pos 0 -ℤ pos e) else sub_ℕ a b))
      ≡ sub_ℕ (d + p * e) (e + q * d)
error_next d e true true p q a b h =
    ap (λ (z : ℤ). z +ℤ pos d) (sub_ℕ-minus a b e)
    ∙ sub_ℕ-plus a (b + e) d
    ∙ sub_ℕ-eq (a + d) (b + e) (d + p * e) (e + q * d) (omega (arith, h))
error_next d e true false p q a b h =
    sub_ℕ-minus a b e ∙ sub_ℕ-eq a (b + e) (d + p * e) (e + q * d) (omega (arith, h))
error_next d e false true p q a b h =
    sub_ℕ-plus a b d ∙ sub_ℕ-eq (a + d) b (d + p * e) (e + q * d) (omega (arith, h))
error_next d e false false p q a b h = sub_ℕ-eq a b (d + p * e) (e + q * d) (omega (arith, h))

pub go_bit : (go_x go_y : Bool) → (go_x ≡ false → go_y ≡ true) → 1 ≤ bit go_x + bit go_y
go_bit true go_y h = omega arith
go_bit false true h = omega arith
go_bit false false h = let e = h refl in cc

pub bit-le : (b : Bool) → bit b ≤ 1
bit-le true = omega arith
bit-le false = omega arith

pub u8-small : (n : ℕ) → n < 256 → u8_ℤ (pos n) ≡ n
u8-small n h = omega arith
