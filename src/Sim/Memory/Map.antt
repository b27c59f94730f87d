-- ===== src/Sim/Memory/Map.antt =====
-- What a checked region and a checked memory map promise: sizes, alignment and disjointness.
use native.Mathlib.Nat.{pow-suc, one-le-pow, div-add-mod, mul-le-mul_left, lt_of_mul-lt-mul_left}
use irata.Prelude.{
  ℕ, zero, suc, ◌+◌, ◌-◌, ◌*◌, ◌/◌, ◌%◌, ◌^◌, ◌≤◌, ◌<◌, ◌≡◌, ◌≢◌, refl, ap, ◌∙◌, true, false, ◌&&◌,
  List, [], ◌∷◌, All, any, arith, ◌==◌, leb, ok, bit_and, Bool-cases, or_false, not-false, ==→eq,
  sym, throw_if-then, ok_injective, inl, inr,
}
use irata.Bits.{and_digit}
use irata.Sim.Memory.{
  Module, module_size, Region, size, is_power_of_two, new_region, contains, overlaps,
  check_overlaps,
}

self_bound : (n a : ℕ) → a ≤ n → bit_and a a ≡ a
self_bound n zero h = refl
self_bound zero (suc a) h = absurd (omega arith)
self_bound (suc n) (suc a) h =
    omega (arith, and_digit (suc a) (suc a), self_bound n (suc a / 2) (omega arith))

power_half :
    (w : ℕ) → 2 ≤ w → bit_and w (w - 1) ≡ 0 → (w % 2 ≡ 0) × (bit_and (w / 2) (w / 2 - 1) ≡ 0)
power_half w h e = elim (Bool-cases (w % 2 == 0)) [
  | inl even ↦
      let low : (w - 1) / 2 ≡ w / 2 - 1 = ground arith in
      let kept : bit_and (w / 2) ((w - 1) / 2) ≡ 0 = omega (arith, and_digit w (w - 1)) in
      (ground arith, rw low at kept)
  | inr odd ↦
      let low : (w - 1) / 2 ≡ w / 2 = ground arith in
      let kept : bit_and (w / 2) ((w - 1) / 2) ≡ 0 = omega (arith, and_digit w (w - 1)) in
      absurd (omega (arith, rw low at kept, self_bound (w / 2) (w / 2)))
]

-- `v & (v - 1)` is 0 only for the powers of two.
power_bound : (n v : ℕ) → v ≤ n → v ≢ 0 → bit_and v (v - 1) ≡ 0 → (k : ℕ) × (v ≡ 2 ^ k)
power_bound n zero h p e = absurd (p refl)
power_bound zero (suc v) h p e = absurd (omega arith)
power_bound (suc n) (suc zero) h p e = (0, refl)
power_bound (suc n) (suc (suc v)) h p e =
    let (even, half) = power_half (suc (suc v)) (omega arith) e in
    let (k, q) = power_bound n (suc (suc v) / 2) (omega arith) (omega arith) half in
    (suc k, omega (arith, pow-suc 2 k))

add_exponents : (j k : ℕ) → 2 ^ j * 2 ^ k ≡ 2 ^ (j + k)
add_exponents zero k = let e : k ≡ 0 + k = omega arith in omega (arith, ap (λ (n : ℕ). 2 ^ n) e)
add_exponents (suc j) k =
    let e : suc j + k ≡ suc (j + k) = omega arith in
    omega (
      arith,
      ap (λ (n : ℕ). 2 ^ n) e,
      pow-suc 2 (j + k),
      add_exponents j k,
      ap (λ (t : ℕ). t * 2 ^ k) (pow-suc 2 j),
    )

-- `q` whole blocks below `p` of them leave room for one more.
room : (b q p : ℕ) → b * q < b * p → b * q + b ≤ b * p
room b q p h = omega (arith, mul-le-mul_left b (lt_of_mul-lt-mul_left b h))

-- An aligned block of a power of two ends at a multiple of it, so inside the address space.
aligned_fits :
    (k offset : ℕ) → k ≤ 16 → offset < 65536 → offset % 2 ^ k ≡ 0 → offset + 2 ^ k ≤ 65536
aligned_fits k offset hk ho e =
    let total : 2 ^ k * 2 ^ (16 - k) ≡ 2 ^ 16 =
      let s : k + (16 - k) ≡ 16 = omega arith in
      add_exponents k (16 - k) ∙ ap (λ (n : ℕ). 2 ^ n) s in
    let blocks : 2 ^ k * (offset / 2 ^ k) ≡ offset = omega (arith, div-add-mod offset (2 ^ k)) in
    omega (
      arith,
      total,
      blocks,
      room (2 ^ k) (offset / 2 ^ k) (2 ^ (16 - k)) (omega (arith, total, blocks)),
    )

small_exponent : (k : ℕ) → 2 ^ k ≤ 65536 → k ≤ 16
small_exponent k h = elim (Bool-cases (leb k 16)) [
  | inl small ↦ ground arith
  | inr large ↦
      let s : 17 + (k - 17) ≡ k = ground arith in
      absurd
        (omega (arith, add_exponents 17 (k - 17), ap (λ (n : ℕ). 2 ^ n) s, one-le-pow (k - 17) 2))
]

power_of_two_size : (n : ℕ) → is_power_of_two n ≡ true → (k : ℕ) × (n ≡ 2 ^ k)
unfolding is_power_of_two
power_of_two_size n h = power_bound n n (omega arith) (ground arith) (ground arith)

-- What the constructor of a region guarantees.
pub record IsPlaced (r : Region) : Type 1 where
  pub block : ℕ
  pub size_power : size r ≡ 2 ^ block
  pub aligned : r.offset % size r ≡ 0
  pub inside : r.offset + size r ≤ 65536

-- A region that is constructed at a word address over a module of at most 2 ^ 16 bytes has that
-- address and that module; its size is a power of two, the address is a multiple of it, and the
-- region ends inside the address space.
pub new_region-IsPlaced :
    (offset : ℕ) (m : Module) {r : Region}
    → offset < 65536
    → module_size m ≤ 65536
    → new_region offset m ≡ ok r
    → (r ≡ record { offset = offset; backing = m }) × IsPlaced r
unfolding new_region
new_region-IsPlaced offset m ho hm e =
    let (power, rest) = throw_if-then _ _ _ e in
    let (fits, made) = throw_if-then _ _ _ rest in
    let aligned : offset % module_size m ≡ 0 = ==→eq _ _ (not-false _ fits) in
    let (k, sized) = power_of_two_size (module_size m) (not-false _ power) in
    let whole : offset % 2 ^ k ≡ 0 = rw sized at aligned in
    let same_region = ok_injective made in
    (
      sym same_region,
      rw (← same_region) (record {
        block = k;
        size_power = sized;
        aligned = aligned;
        inside = omega (arith, aligned_fits k offset (small_exponent k (omega arith)) ho whole);
      }),
    )

-- No address lies in two of the regions.
abbrev pub Apart : List Region → Type 0
Apart [] = Unit
Apart (r ∷ rs) = All (λ o. (a : ℕ) → (contains r a && contains o a) ≡ false) rs × Apart rs

apart_pair :
    (r o : Region) (a : ℕ)
    → r.offset + size r < 2 ^ 32
    → o.offset + size o < 2 ^ 32
    → overlaps r o ≡ false
    → (contains r a && contains o a) ≡ false
unfolding overlaps contains
apart_pair r o a hr ho e = ground arith

apart-All :
    (r : Region) (rs : List Region)
    → r.offset + size r < 2 ^ 32
    → All (λ o. o.offset + size o < 2 ^ 32) rs
    → any (overlaps r) rs ≡ false
    → All (λ o. (a : ℕ) → (contains r a && contains o a) ≡ false) rs
apart-All r [] hr h e = tt
apart-All r (o ∷ rs) hr h e =
    let (first, others) = or_false _ _ e in
    (λ a. apart_pair r o a hr h.0 first, apart-All r rs hr h.1 others)

-- When every region ends below 2 ^ 32, a memory whose constructor finds no overlap maps each address at
-- most once.
pub check_overlaps-Apart :
    (rs : List Region)
    → All (λ r. r.offset + size r < 2 ^ 32) rs
    → check_overlaps rs ≡ ok tt
    → Apart rs
unfolding check_overlaps
check_overlaps-Apart [] h e = tt
check_overlaps-Apart (r ∷ rs) h e =
    let (none_overlap, rest) = throw_if-then _ _ _ e in
    (apart-All r rs h.0 h.1 none_overlap, check_overlaps-Apart rs h.1 rest)
