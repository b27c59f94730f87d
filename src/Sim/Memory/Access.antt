-- ===== src/Sim/Memory/Access.antt =====
-- Reads and writes through the memory map.
use irata.Prelude.{
  ℕ, ◌+◌, ◌<◌, ◌≡◌, ◌≢◌, refl, ap, sym, subst, ◌∙◌, Bool, true, false, Option, none, some, List, [],
  ◌∷◌, length, get_or, set, arith, ◌==◌, leb, if◌then◌else◌, Result, ok, err, ◌>>=◌, throw_if-then,
  ok_injective, >>=-eq-ok, Bool-cases, ==→eq, ==_self, inl, inr, length-set, get_or-set_self,
  get_or-set_ne,
}
use irata.Sim.Memory.{
  SimError, rom_write, unmapped_write, Kind, ram, rom, Module, storage, device, module_size, Region,
  size, contains, translate, read_module, write_module, read_region, write_region, find_region,
  read_at, write_at, write_kind,
}

-- A contained address is translated to an index of the module.
translate_in :
    (r : Region) (a : ℕ)
    → a < 65536
    → contains r a ≡ true
    → (translate r a < size r) × (translate r a + r.offset ≡ a)
unfolding contains translate
translate_in r a ha c = (ground arith, ground arith)

-- What a read returns, without what is behind it.
abbrev pub value_of {ℓ} : {A : Type ℓ} → Result SimError (ℕ × A) → Result SimError ℕ
value_of (ok found) = ok found.0
value_of (err e) = err e

value_of->>= {ℓ κ} :
    {A : Type ℓ} {B : Type κ} (m : Result SimError (ℕ × A)) (f : ℕ × A → B)
    → value_of (m >>= λ found. ok (found.0, f found)) ≡ value_of m
value_of->>= (ok found) f = refl
value_of->>= (err e) f = refl

read_region-value :
    (r : Region) (kind : Kind) (bytes : List ℕ) (a : ℕ)
    → r.backing ≡ storage kind bytes
    → a < 65536
    → contains r a ≡ true
    → value_of (read_region r a) ≡ ok (get_or bytes (translate r a) 0)
unfolding read_region read_module
read_region-value r kind bytes a stored ha c =
    let sized : size r ≡ length bytes = ap module_size stored in
    let inside : leb (length bytes) (translate r a) ≡ false =
      ground (arith, (translate_in r a ha c).0, sized) in
    rw c (
      value_of->>= (read_module r.backing (translate r a)) _
      ∙ ap (λ m. value_of (read_module m (translate r a))) stored
      ∙ rw (read_module, inside) refl)

-- What a successful write to a region of RAM has done.
record Written (r : Region) (a v : ℕ) (r' : Region) : Type 1 where
  bytes : List ℕ
  before : r.backing ≡ storage ram bytes
  behind : r'.backing ≡ storage ram (set bytes (translate r a) v)
  same_offset : r'.offset ≡ r.offset

abbrev pub is_device : Module → Bool
is_device (storage kind bytes) = false
is_device (device d) = true

-- The region that is found, if any, has RAM or ROM behind it.
abbrev pub HasStorage : Option Region → Type 0
HasStorage none = Unit
HasStorage (some r) = is_device r.backing ≡ false

write_kind-ok :
    (kind : Kind) (bytes : List ℕ) (i v : ℕ) {m : Module}
    → write_kind kind bytes i v ≡ ok m
    → (kind ≡ ram) × (m ≡ storage ram (set bytes i v))
unfolding write_kind
write_kind-ok ram bytes i v h = (refl, sym (ok_injective (throw_if-then _ _ _ h).1))
write_kind-ok rom bytes i v h = cc

write_region-ok :
    (r : Region) (a v : ℕ) {r' : Region}
    → is_device r.backing ≡ false
    → write_region r a v ≡ ok r'
    → Written r a v r'
unfolding write_region write_module
write_region-ok r a v {r'} is_storage h =
    let (c, rest) = throw_if-then _ _ _ h in
    let (m, wrote, made) = >>=-eq-ok (write_module r.backing (translate r a) v) _ rest in
    by_module r.backing refl is_storage m wrote (ok_injective made)
  where
    by_module :
        (n : Module)
        → r.backing ≡ n
        → is_device n ≡ false
        → (m : Module) → write_module n (translate r a) v ≡ ok m
        → record r { backing = m } ≡ r'
        → Written r a v r'
    by_module (device d) e t m wrote made = cc
    by_module (storage kind bytes) e t m wrote made =
        let (is_ram, stored) = write_kind-ok kind bytes (translate r a) v wrote in
        record {
          bytes = bytes;
          before = e ∙ ap (λ k. storage k bytes) is_ram;
          behind = sym (ap (λ (x : Region). x.backing) made) ∙ stored;
          same_offset = sym (ap (λ (x : Region). x.offset) made);
        }

module _ {r r' : Region} (a v : ℕ) (w : Written r a v r') where
  old_size : size r ≡ length w.bytes
  old_size = ap module_size w.before

  same_size : size r' ≡ size r
  same_size = ap module_size w.behind ∙ length-set w.bytes (translate r a) v ∙ sym old_size

  same_addresses : (b : ℕ) → contains r' b ≡ contains r b
  unfolding contains
  same_addresses b = ground (arith, same_size, w.same_offset)

  same_translation : (b : ℕ) → translate r' b ≡ translate r b
  unfolding translate
  same_translation b = ground (arith, w.same_offset)

  read-new :
      (b : ℕ)
      → b < 65536
      → contains r b ≡ true
      → value_of (read_region r' b) ≡ ok (get_or (set w.bytes (translate r a) v) (translate r b) 0)
  read-new b hb cb =
      read_region-value r' ram _ b w.behind hb (same_addresses b ∙ cb)
      ∙ ap (λ i. ok (get_or (set w.bytes (translate r a) v) i 0)) (same_translation b)

  read-written : a < 65536 → contains r a ≡ true → value_of (read_region r' a) ≡ ok v
  read-written ha c =
      read-new a ha c
      ∙ ap ok (
          get_or-set_self w.bytes (translate r a) v 0
            (omega (arith, (translate_in r a ha c).0, old_size)))

  read-other :
      (b : ℕ)
      → a < 65536
      → b < 65536
      → b ≢ a
      → contains r a ≡ true
      → contains r b ≡ true
      → value_of (read_region r' b) ≡ value_of (read_region r b)
  read-other b ha hb ne ca cb =
      read-new b hb cb
      ∙ ap ok (
          get_or-set_ne w.bytes (translate r a) (translate r b) v 0
            (λ e. ne (omega (arith, e, (translate_in r a ha ca).1, (translate_in r b hb cb).1))))
      ∙ sym (read_region-value r ram w.bytes b w.before hb cb)

module _ (r : Region) (rs : List Region) (a : ℕ) where
  find_region-hit : contains r a ≡ true → find_region (r ∷ rs) a ≡ some r
  unfolding find_region
  find_region-hit c = rw (c, find_region)

  find_region-miss : contains r a ≡ false → find_region (r ∷ rs) a ≡ find_region rs a
  unfolding find_region
  find_region-miss c = rw (c, find_region)

  read_at-hit : contains r a ≡ true → value_of (read_at (r ∷ rs) a) ≡ value_of (read_region r a)
  unfolding read_at
  read_at-hit c =
      ap value_of (rw (read_at, c) refl) ∙ value_of->>= (read_region r a) (λ found. found.1 ∷ rs)

  read_at-miss : contains r a ≡ false → value_of (read_at (r ∷ rs) a) ≡ value_of (read_at rs a)
  unfolding read_at
  read_at-miss c =
      ap value_of (rw (read_at, c) refl) ∙ value_of->>= (read_at rs a) (λ found. r ∷ found.1)

  write_at-hit :
      (v : ℕ)
      → contains r a ≡ true
      → write_at (r ∷ rs) a v ≡ (write_region r a v >>= λ r'. ok (r' ∷ rs))
  unfolding write_at
  write_at-hit v c = rw (c, write_at)

  write_at-miss :
      (v : ℕ)
      → contains r a ≡ false
      → write_at (r ∷ rs) a v ≡ (write_at rs a v >>= λ rs'. ok (r ∷ rs'))
  unfolding write_at
  write_at-miss v c = rw (c, write_at)

-- What a write to the memory has done to every later read.
record Stored (rs : List Region) (a v : ℕ) (rs' : List Region) : Type 0 where
  reads_back : value_of (read_at rs' a) ≡ ok v
  reads_others : (b : ℕ) → b < 65536 → b ≢ a → value_of (read_at rs' b) ≡ value_of (read_at rs b)

Written-here :
    (r : Region) (rs : List Region) (a v : ℕ) {r' : Region}
    → a < 65536
    → contains r a ≡ true
    → Written r a v r'
    → Stored (r ∷ rs) a v (r' ∷ rs)
Written-here r rs a v {r'} ha c w = record {
  reads_back = read_at-hit r' rs a (same_addresses a v w a ∙ c) ∙ read-written a v w ha c;
  reads_others = λ b hb ne. elim (Bool-cases (contains r b)) [
    | inl cb ↦
        read_at-hit r' rs b (same_addresses a v w b ∙ cb)
        ∙ read-other a v w b ha hb ne c cb
        ∙ sym (read_at-hit r rs b cb)
    | inr cb ↦ read_at-miss r' rs b (same_addresses a v w b ∙ cb) ∙ sym (read_at-miss r rs b cb)
  ];
}

written_behind :
    (r : Region) (rs : List Region) (a v : ℕ) {rs' : List Region}
    → contains r a ≡ false
    → Stored rs a v rs'
    → Stored (r ∷ rs) a v (r ∷ rs')
written_behind r rs a v {rs'} c s = record {
  reads_back = read_at-miss r rs' a c ∙ s.reads_back;
  reads_others = λ b hb ne. elim (Bool-cases (contains r b)) [
    | inl cb ↦ read_at-hit r rs' b cb ∙ sym (read_at-hit r rs b cb)
    | inr cb ↦ read_at-miss r rs' b cb ∙ s.reads_others b hb ne ∙ sym (read_at-miss r rs b cb)
  ];
}

write_at-Stored :
    (rs : List Region) (a v : ℕ) {rs' : List Region}
    → a < 65536
    → HasStorage (find_region rs a)
    → write_at rs a v ≡ ok rs'
    → Stored rs a v rs'
unfolding write_at
write_at-Stored [] a v ha t h = cc
write_at-Stored (r ∷ rs) a v ha t h = elim (Bool-cases (contains r a)) [
  | inl c ↦
      let (r', wrote, made) =
        >>=-eq-ok (write_region r a v) _ (sym (write_at-hit r rs a v c) ∙ h) in
      rw (← ok_injective made) (
        Written-here r rs a v ha c
          (write_region-ok r a v (subst HasStorage (find_region-hit r rs a c) t) wrote))
  | inr c ↦
      let (ss, wrote, made) = >>=-eq-ok (write_at rs a v) _ (sym (write_at-miss r rs a v c) ∙ h) in
      rw (← ok_injective made) (
        written_behind r rs a v c
          (write_at-Stored rs a v ha (subst HasStorage (find_region-miss r rs a c) t) wrote))
]

-- After a successful write to a word address where a region of RAM or ROM is found, a read of that
-- address returns the byte written, and a read of any other word address, a device's included, returns
-- what it returned before.
pub read_at-write_at :
    (rs : List Region) (a v b : ℕ) {rs' : List Region}
    → a < 65536
    → b < 65536
    → HasStorage (find_region rs a)
    → write_at rs a v ≡ ok rs'
    → value_of (read_at rs' b) ≡ (if b == a then ok v else value_of (read_at rs b))
read_at-write_at rs a v b ha hb t h =
    let s = write_at-Stored rs a v ha t h in
    elim (Bool-cases (b == a)) [
      | inl same ↦ rw (==→eq b a same, ==_self a) s.reads_back
      | inr other ↦ rw other (s.reads_others b hb (λ e. absurd (ground arith)))
    ]

abbrev pub error_of {ℓ} : {A : Type ℓ} → Result SimError A → Option SimError
error_of (ok a) = none
error_of (err e) = some e

abbrev module_refuses : Module → Option SimError
module_refuses (storage ram bytes) = none
module_refuses (storage rom bytes) = some rom_write
module_refuses (device d) = none

-- The refusal that the region of an address makes to a write.
abbrev pub refusal : Option Region → Option SimError
refusal none = some unmapped_write
refusal (some r) = module_refuses r.backing

write_module-error :
    (m : Module) (i v : ℕ) → i < module_size m → error_of (write_module m i v) ≡ module_refuses m
unfolding write_module write_kind
write_module-error (storage ram bytes) i v h =
    let inside : leb (length bytes) i ≡ false = ground (arith, h) in rw inside refl
write_module-error (storage rom bytes) i v h = refl
write_module-error (device d) i v h = refl

error_of->>= {ℓ κ} :
    {A : Type ℓ} {B : Type κ} (m : Result SimError A) (f : A → B)
    → error_of (m >>= λ x. ok (f x)) ≡ error_of m
error_of->>= (ok a) f = refl
error_of->>= (err e) f = refl

write_region-error :
    (r : Region) (a v : ℕ)
    → a < 65536
    → contains r a ≡ true
    → error_of (write_region r a v) ≡ module_refuses r.backing
unfolding write_region
write_region-error r a v ha c = rw c (
    error_of->>= (write_module r.backing (translate r a) v) _
    ∙ write_module-error r.backing (translate r a) v (translate_in r a ha c).0)

-- A write to a word address is refused as unmapped where no region contains it, refused as a ROM
-- write where the first region that contains it is a ROM, and succeeds in all other cases.
pub write_at-refusal :
    (rs : List Region) (a v : ℕ)
    → a < 65536
    → error_of (write_at rs a v) ≡ refusal (find_region rs a)
write_at-refusal [] a v ha = unfold write_at find_region in refl
write_at-refusal (r ∷ rs) a v ha = elim (Bool-cases (contains r a)) [
  | inl c ↦
      rw (write_at-hit r rs a v c, find_region-hit r rs a c)
        (error_of->>= (write_region r a v) _ ∙ write_region-error r a v ha c)
  | inr c ↦
      rw (write_at-miss r rs a v c, find_region-miss r rs a c)
        (error_of->>= (write_at rs a v) _ ∙ write_at-refusal rs a v ha)
]
