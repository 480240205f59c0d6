-- ===== src/Instruction/Offsets.antt =====
-- src/visitors/instruction.c, `instruction_list_recompute_offsets`: the loop ends, and with what.
use jni2hook.Base.{
  ℕ, zero, suc, ◌+◌, ◌%◌, ◌^◌, ◌≤◌, ◌≡◌, refl, ap, Bool, false, Bool-cases, inl, inr, ◌||◌, not,
  List, [], ◌∷◌, some, ◌==◌, arith, test_self, subst,
}
use jni2hook.Instruction.Node.{
  Instruction, InstructionList, instruction_length_at, offsets_pass,
  instruction_list_recompute_offsets,
}

-- The instructions lie one behind the other from the offset on, up to the end.
abbrev pub IsLaidOut : ℕ → List Instruction → ℕ → Type 0
IsLaidOut offset [] end = offset ≡ end
IsLaidOut offset (node ∷ nodes) end =
    (node.offset ≡ offset)
    × IsLaidOut ((offset + instruction_length_at node offset) % 2 ^ 32) nodes end

-- The instructions without their offsets.
abbrev pub moved : List Instruction → List Instruction
moved [] = []
moved (node ∷ nodes) = record node { offset = 0 } ∷ moved nodes

offsets_pass-IsLaidOut :
    (nodes : List Instruction) (offset : ℕ)
    → IsLaidOut offset (offsets_pass nodes offset).0 (offsets_pass nodes offset).1
      × (moved (offsets_pass nodes offset).0 ≡ moved nodes)
unfolding offsets_pass instruction_length_at
offsets_pass-IsLaidOut [] offset = (refl, refl)
offsets_pass-IsLaidOut (node ∷ nodes) offset =
    let (laid, same) =
      offsets_pass-IsLaidOut nodes ((offset + instruction_length_at node offset) % 2 ^ 32) in
    ((refl, laid), ap (λ l. record node { offset = 0 } ∷ l) same)

-- A list that is laid out is left as it is.
pass_of_laid_out :
    (nodes : List Instruction) (offset end : ℕ)
    → IsLaidOut offset nodes end
    → offsets_pass nodes offset ≡ (nodes, end, false)
unfolding offsets_pass
pass_of_laid_out [] offset end h = rw h refl
pass_of_laid_out (node ∷ nodes) offset end h =
    let later =
      pass_of_laid_out nodes ((offset + instruction_length_at node offset) % 2 ^ 32) end h.1 in
    rw later (
      subst
        (λ o.
          ◌≡◌ {A = List Instruction × ℕ × Bool}
            (record node { offset = o } ∷ nodes, end, not (node.offset == o) || false)
            (node ∷ nodes, end, false))
        h.0 (rw (test_self node.offset) refl))

-- Recomputing the offsets ends after at most two rounds, whatever the offsets were: each
-- instruction then stands right behind the one before it, the first at 0, the code length is the end
-- of the last, and apart from the offsets the instructions are the ones that there were.
pub recompute_offsets-IsLaidOut :
    (rounds : ℕ) (list : InstructionList)
    → 2 ≤ rounds
    → (list' : InstructionList) × (instruction_list_recompute_offsets rounds list ≡ some list')
      × IsLaidOut 0 list'.items list'.code_length
      × (moved list'.items ≡ moved list.items)
unfolding instruction_list_recompute_offsets
recompute_offsets-IsLaidOut zero list h = absurd (omega arith)
recompute_offsets-IsLaidOut (suc zero) list h = absurd (omega arith)
recompute_offsets-IsLaidOut (suc (suc rounds)) list h =
    let items = (offsets_pass list.items 0).0 in
    let end = (offsets_pass list.items 0).1 in
    let (laid, same) = offsets_pass-IsLaidOut list.items 0 in
    let second = pass_of_laid_out items 0 end laid in
    elim (Bool-cases (offsets_pass list.items 0).2) [
      | inl changed ↦
          (record list { items = items; code_length = end }, rw (changed, second) refl, laid, same)
      | inr steady ↦ (record list { items = items; code_length = end }, rw steady refl, laid, same)
    ]
