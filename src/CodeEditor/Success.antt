-- ===== src/CodeEditor/Success.antt =====
-- src/visitors/code_editor.c, `code_editor_insert`: how far an insertion that succeeds has come.
use jni2hook.Base.{
  ℕ, zero, suc, ◌+◌, ◌*◌, ◌≤◌, ◌<◌, ◌≡◌, ◌≢◌, inl, inr, refl, sym, ap, subst, Bool, Bool-cases,
  true, false, List, [], ◌∷◌, Option, none, some, length, get_elem?, ClassfileStatus, if◌then◌else◌,
  leb, ◌==◌, arith,
}
use jni2hook.ClassFile.Tree.{AttributeInfo}
use jni2hook.Instruction.Node.{Instruction, InstructionList}
use jni2hook.Instruction.Decode.{instruction_size}
use jni2hook.TypeAnnotation.Refs.{is_negative}
use jni2hook.CodeEditor.Editor.{CodeEditor}
use jni2hook.CodeEditor.References.{
  Walk, walk_first, walk_all, walk_instruction, offset_to_index, offset_found, index_or_minus_one,
  index_at_offset,
}
use jni2hook.CodeEditor.Insert.{
  Outcome, instruction_list_reserve, insert_room, insert_at, with_stack, with_attributes,
  code_editor_insert,
}
use jni2hook.CodeEditor.Atomic.{rehearsal-same}

index_at_offset_below :
    (nodes : List Instruction) (offset start i : ℕ)
    → index_at_offset nodes offset start ≡ some i
    → i < start + length nodes
unfolding index_at_offset
index_at_offset_below [] offset start i h = cc
index_at_offset_below (node ∷ nodes) offset start i h =
    ground (arith, index_at_offset_below nodes offset (start + 1) i)

found_below :
    (n : ℕ) (found : Option ℕ)
    → ((i : ℕ) → found ≡ some i → i < n)
    → is_negative (index_or_minus_one found) ≡ false
    → index_or_minus_one found ≤ n
found_below n none below h = cc
found_below n (some i) below h = let room = below i refl in omega arith

pub offset_to_index_below :
    (list : InstructionList) (offset : ℕ)
    → is_negative (offset_to_index list offset) ≡ false
    → offset_to_index list offset ≤ length list.items
unfolding offset_to_index
offset_to_index_below list offset h = ground (
  arith,
  found_below (length list.items) (index_at_offset list.items offset 0)
      (λ i found. let below = index_at_offset_below list.items offset 0 i found in omega arith),
)

-- A walk leaves the offsets as they are.
pub walk_offset_found :
    (apply : Bool) (w v : Walk ℕ) (list : InstructionList) (nodes : List Instruction) (i : ℕ)
    → offset_found list (get_elem? (walk_all (walk_instruction apply w v) nodes).1 i)
      ≡ offset_found list (get_elem? nodes i)
unfolding walk_first walk_instruction
walk_offset_found apply w v list [] i = refl
walk_offset_found apply w v list (node ∷ nodes) zero = refl
walk_offset_found apply w v list (node ∷ nodes) (suc i) = walk_offset_found apply w v list nodes i

otherwise :
    {A : Type 0} (test : Bool) {x y z : A}
    → x ≢ z
    → (if test then x else y) ≡ z
    → (test ≡ false) × (y ≡ z)
otherwise true apart h = absurd (apart h)
otherwise false apart h = (refl, h)

untaken :
    {A : Type 0} (test : Bool) (x : A) {y z : A}
    → test ≡ false
    → (if test then x else y) ≡ z
    → y ≡ z
untaken true x closed h = cc
untaken false x closed h = h

indeed : {A : Type 0} (test : Bool) {x y z : A} → y ≢ z → (if test then x else y) ≡ z → x ≡ z
indeed true apart h = h
indeed false apart h = absurd (apart h)

refused :
    (status : ClassfileStatus) (d e : CodeEditor)
    → ◌≢◌ {A = Option Outcome} (some (some status, d)) (some (none, e))
refused status d e h = cc

abbrev IfSome : {A : Type 0} → (A → Type 0) → Option A → Type 0
IfSome P none = Unit {0}
IfSome P (some a) = P a

-- Room changes the capacity alone.
reserved_keeps :
    (grants : ℕ → Bool) (count : ℕ) (list : InstructionList)
    → IfSome
        (λ l. l ≡ record list { capacity = l.capacity })
        (instruction_list_reserve grants count list)
unfolding instruction_list_reserve
reserved_keeps grants count list = elim (Bool-cases (leb count list.capacity)) [
  | inl enough ↦ rw enough refl
  | inr short ↦ elim (Bool-cases (grants (count * instruction_size))) [
    | inl granted ↦ rw (short, granted) refl
    | inr lacking ↦ rw (short, lacking) tt
  ]
]

reserved_inv :
    (grants : ℕ → Bool) (count : ℕ) (list list' : InstructionList)
    → instruction_list_reserve grants count list ≡ some list'
    → list' ≡ record list { capacity = list'.capacity }
reserved_inv grants count list list' h =
    subst (IfSome (λ l. l ≡ record list { capacity = l.capacity })) h
      (reserved_keeps grants count list)

room_inv :
    (rounds at : ℕ) (nodes : List Instruction) (extra : ℕ) (e e' : CodeEditor)
    (room : Option InstructionList)
    → insert_room rounds at nodes extra e room ≡ some (none, e')
    → (list : InstructionList) × (room ≡ some list)
      × (insert_at rounds at nodes extra (record e { instructions = list }) ≡ some (none, e'))
room_inv rounds at nodes extra e e' none h = absurd (refused ClassfileStatus.out_of_memory e e' h)
room_inv rounds at nodes extra e e' (some list) h = (list, refl, h)

-- What is known of an insertion that succeeded: how far it came, and where from.
pub inserted_inv :
    (grants : ℕ → Bool) (rounds offset : ℕ) (nodes : List Instruction) (extra : ℕ)
    (e e' : CodeEditor)
    → code_editor_insert grants rounds offset nodes extra e ≡ some (none, e')
    → 1 ≤ length nodes
    → (list : InstructionList) × (list ≡ record e.instructions { capacity = list.capacity })
      × (is_negative (offset_to_index e.instructions offset) ≡ false)
      × (insert_at rounds
            (offset_to_index e.instructions offset)
            nodes
            extra
            (record e { instructions = list })
          ≡ some (none, e'))
unfolding code_editor_insert
inserted_inv grants rounds offset nodes extra e e' h some_nodes =
    let same = rehearsal-same offset_to_index e in
    let going : (length nodes == 0) ≡ false = ground arith in
    let (found, past_offset) = otherwise _ (refused _ _ _) (untaken _ _ going h) in
    let (deep, past_stack) = otherwise _ (refused _ _ _) past_offset in
    let ready = indeed _ (refused _ _ _) past_stack in
    let (list, room, run) = room_inv rounds _ nodes extra _ e' _ ready in
    let kept = reserved_inv grants _ _ list room in
    (
      list,
      subst (λ d. list ≡ record d.instructions { capacity = list.capacity }) same kept,
      found,
      subst
          (λ d.
            insert_at rounds (offset_to_index e.instructions offset) nodes extra
              (record d { instructions = list })
            ≡ some (none, e'))
          same run,
    )

-- What an end without a failure leaves of the editor before it.
pub settled_inv :
    (extra : ℕ) (placed : CodeEditor) (flush : Option ClassfileStatus × List AttributeInfo)
    (e' : CodeEditor)
    → with_stack extra (with_attributes placed flush) ≡ (none, e')
    → e'.instructions ≡ placed.instructions
settled_inv extra placed (some status, attributes) e' h = cc
settled_inv extra placed (none, attributes) e' h = sym (ap (λ o. o.1.instructions) h)
