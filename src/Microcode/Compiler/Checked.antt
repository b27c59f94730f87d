-- ===== src/Microcode/Compiler/Checked.antt =====
-- The whole of `Compiler::Compile` of microcode/src/compiler/compiler.cpp.
use irata.Prelude.{◌≡◌, subst, ok, >>=-eq-ok, >>-eq-ok, ok_injective}
use irata.Microcode.Ir.{InstructionSet}
use irata.Microcode.Sequence
use irata.Microcode.Fetch
use irata.Microcode.Optimizers.{run_empty, run_duplicate, run_merging}
use irata.Microcode.Compiler.{
  Compiler, MicrocodeProgram, run_all_validators, validated, prepare, compile,
}
use irata.Microcode.Compiler.Table.{InstructionsEncoded, encode-InstructionsEncoded}

module _ (c : Compiler) where
  validated-ok :
      (set ready : InstructionSet) → validated c set ≡ ok ready → run_all_validators c ready ≡ ok tt
  unfolding validated
  validated-ok set ready h =
      let (passed, same) = >>-eq-ok (run_all_validators c set) (ok set) h in
      subst (λ (s : InstructionSet). run_all_validators c s ≡ ok tt) (ok_injective same) passed

  prepare-ok :
      (set ready : InstructionSet) → prepare c set ≡ ok ready → run_all_validators c ready ≡ ok tt
  unfolding prepare
  prepare-ok set ready h =
      let (fetched, sequenced) = >>-eq-ok (Fetch.validate (Fetch.transform set)) _ h in
      let (checked, first, emptied) =
        >>=-eq-ok (validated c (Sequence.transform c.sequencer (Fetch.transform set))) _
          sequenced in
      let (filled, second, deduped) = >>=-eq-ok (validated c (run_empty checked)) _ emptied in
      let (deduplicated, third, merged) =
        >>=-eq-ok (validated c (run_duplicate filled)) _ deduped in
      validated-ok (run_merging c.phase_of deduplicated) ready merged

  -- A program that `Compile` returns comes from an instruction set that the passes made, that all the
  -- validators accept, and whose every step has the word of its controls in the program's table, at
  -- the key of its opcode and number under each status of its variant's expansion.
  pub compile-InstructionsEncoded :
      (set : InstructionSet) (program : MicrocodeProgram)
      → compile c set ≡ ok program
      → (ready : InstructionSet) × (prepare c set ≡ ok ready)
        × (run_all_validators c ready ≡ ok tt)
        × InstructionsEncoded c program.table ready.instructions
  unfolding compile
  compile-InstructionsEncoded set program h =
      let (ready, prepared, encoded) = >>=-eq-ok (prepare c set) _ h in
      (
        ready,
        prepared,
        prepare-ok set ready prepared,
        encode-InstructionsEncoded c ready program encoded,
      )
