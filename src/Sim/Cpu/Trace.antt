-- ===== src/Sim/Cpu/Trace.antt =====
-- The entries that the trace buffer keeps: sim/include/irata2/sim/debug_trace.h.
use irata.Prelude.{
  ℕ, zero, suc, ◌+◌, ◌-◌, ◌≤◌, ◌<◌, ◌≡◌, refl, sym, ap, ◌∙◌, true, false, List, [], ◌∷◌, ◌++◌,
  length, drop, length-append, ltb, leb, arith, lt→ltb, Bool-cases, inl, inr,
}
use irata.Sim.Cpu.{DebugTraceEntry, DebugTraceBuffer, configure, record_entry}

abbrev pub record_all : DebugTraceBuffer → List DebugTraceEntry → DebugTraceBuffer
record_all trace [] = trace
record_all trace (e ∷ es) = record_all (record_entry e trace) es

append_assoc :
    (xs : List DebugTraceEntry) (y : DebugTraceEntry) (ys : List DebugTraceEntry)
    → (xs ++ (y ∷ [])) ++ ys ≡ xs ++ (y ∷ ys)
append_assoc [] y ys = refl
append_assoc (x ∷ xs) y ys = ap (λ zs. x ∷ zs) (append_assoc xs y ys)

record_entry-kept :
    (e : DebugTraceEntry) (depth : ℕ) (xs : List DebugTraceEntry)
    → length xs ≤ depth
    → 0 < depth
    → record_entry e (record { depth = depth; entries = xs })
      ≡ record { depth = depth; entries = drop (1 + length xs - depth) xs ++ (e ∷ []) }
unfolding record_entry
record_entry-kept e depth xs h some_depth =
    let on : ltb 0 depth ≡ true = lt→ltb 0 depth some_depth in
    elim (Bool-cases (leb depth (length xs))) [
      | inl full ↦ rw (on, full) (ap kept (one (length xs) h full))
      | inr room ↦ rw (on, room) (ap kept (none_over (length xs) room))
    ]
  where
    kept : ℕ → DebugTraceBuffer
    kept n = record { depth = depth; entries = drop n xs ++ (e ∷ []) }

    one : (n : ℕ) → n ≤ depth → leb depth n ≡ true → 1 ≡ 1 + n - depth
    one n low full = ground arith

    none_over : (n : ℕ) → leb depth n ≡ false → 0 ≡ 1 + n - depth
    none_over n room = ground arith

append_nil : (xs : List DebugTraceEntry) → xs ++ [] ≡ xs
append_nil [] = refl
append_nil (x ∷ xs) = ap (λ ys. x ∷ ys) (append_nil xs)

drop-append :
    (k : ℕ) (xs ys : List DebugTraceEntry) → k ≤ length xs → drop k xs ++ ys ≡ drop k (xs ++ ys)
drop-append zero xs ys h = refl
drop-append (suc k) [] ys h = absurd (omega arith)
drop-append (suc k) (x ∷ xs) ys h = drop-append k xs ys (omega arith)

drop_nil : (n : ℕ) → drop {A = DebugTraceEntry} n [] ≡ []
drop_nil zero = refl
drop_nil (suc n) = refl

drop-drop : (k n m : ℕ) (zs : List DebugTraceEntry) → k + n ≡ m → drop n (drop k zs) ≡ drop m zs
drop-drop zero n m zs h = ap (λ (i : ℕ). drop i zs) (omega (arith, h))
drop-drop (suc k) n m [] h = drop_nil n ∙ sym (drop_nil m)
drop-drop (suc k) n zero (z ∷ zs) h = absurd (omega (arith, h))
drop-drop (suc k) n (suc m) (z ∷ zs) h = drop-drop k n m zs (omega (arith, h))

length-drop : (k : ℕ) (zs : List DebugTraceEntry) → length (drop k zs) ≡ length zs - k
length-drop zero zs = omega arith
length-drop (suc k) [] = omega arith
length-drop (suc k) (z ∷ zs) = omega (arith, length-drop k zs)

-- Dropping some of what is dropped anyway.
last_of :
    (k depth : ℕ) (zs : List DebugTraceEntry)
    → k ≤ length zs - depth
    → drop (length (drop k zs) - depth) (drop k zs) ≡ drop (length zs - depth) zs
last_of k depth zs h =
    drop-drop k (length (drop k zs) - depth) (length zs - depth) zs
      (omega (arith, length-drop k zs))

last_entries :
    (es : List DebugTraceEntry) (depth : ℕ) (xs : List DebugTraceEntry)
    → length xs ≤ depth
    → 0 < depth
    → (record_all (record { depth = depth; entries = xs }) es).entries
      ≡ drop (length (xs ++ es) - depth) (xs ++ es)
last_entries [] depth xs h some_depth =
    sym (rw (append_nil xs) (ap (λ (n : ℕ). drop n xs) (over (length xs) h)))
  where
    over : (n : ℕ) → n ≤ depth → n - depth ≡ 0
    over n low = omega arith
last_entries (e ∷ es) depth xs h some_depth =
    let k = 1 + length xs - depth in
    let longer = length-append xs (e ∷ es) in
    let same : (drop k xs ++ (e ∷ [])) ++ es ≡ drop k (xs ++ (e ∷ es)) =
      append_assoc (drop k xs) e es ∙ drop-append k xs (e ∷ es) (omega arith) in
    ap (λ (t : DebugTraceBuffer). (record_all t es).entries)
      (record_entry-kept e depth xs h some_depth)
    ∙ last_entries es depth (drop k xs ++ (e ∷ []))
        (omega (arith, length-append (drop k xs) (e ∷ []), length-drop k xs)) some_depth
    ∙ ap (λ (ys : List DebugTraceEntry). drop (length ys - depth) ys) same
    ∙ last_of k depth (xs ++ (e ∷ es)) (omega (arith, longer))

-- A buffer that is configured with a depth above 0 and then given some entries keeps the last of them, as many as
-- the depth, in their order.
pub record_all-last :
    (trace : DebugTraceBuffer) (depth : ℕ) (es : List DebugTraceEntry)
    → 0 < depth
    → (record_all (configure depth trace) es).entries ≡ drop (length es - depth) es
unfolding configure
record_all-last trace depth es h = last_entries es depth [] (omega arith) h
