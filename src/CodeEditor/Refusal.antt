-- ===== src/CodeEditor/Refusal.antt =====
-- src/visitors/code_editor.c, `code_editor_insert`: that it comes back, and what a refusal leaves.
use jni2hook.Base.{
  ℕ, ◌+◌, ◌%◌, ◌^◌, ◌≤◌, ◌≡◌, ◌⊎◌, inl, inr, refl, subst, Bool, Bool-cases, true, false, ◌||◌, List,
  [], ◌∷◌, Option, none, some, length, get_elem?, ClassfileStatus, if◌then◌else◌, ltb,
}
use jni2hook.ClassFile.Tree.{AttributeInfo}
use jni2hook.Instruction.Node.{Instruction, InstructionList, max_code_length}
use jni2hook.Instruction.Offsets.{recompute_offsets-IsLaidOut}
use jni2hook.TypeAnnotation.Refs.{
  TypeAnnotationRef, TypeAnnotationRefKind, ref_size, is_negative, flush_end, flush_into,
  flush_found, unless_failed, type_annotation_flush,
}
use jni2hook.CodeEditor.Editor.{CodeEditor}
use jni2hook.CodeEditor.References.{
  offset_to_index, index_to_offset, map_all_references, shift_references,
}
use jni2hook.CodeEditor.Insert.{
  Outcome, instruction_list_reserve, insert_room, insert_at, settle, with_stack, with_attributes,
  splice, code_editor_insert,
}
use jni2hook.CodeEditor.Atomic.{rehearsal-same}

-- The ways in which writing the annotations back may end.
pub data IsFlushStatus : Option ClassfileStatus → Type 0 where
  fine : IsFlushStatus none
  lost : IsFlushStatus (some ClassfileStatus.unsupported)
  far : IsFlushStatus (some ClassfileStatus.code_too_large)

flush_if :
    {S : Type 0} (test : Bool) (x y : Option ClassfileStatus × S)
    → IsFlushStatus x.0
    → IsFlushStatus y.0
    → IsFlushStatus (if test then x else y).0
flush_if true x y h k = h
flush_if false x y h k = k

flush_end-IsFlushStatus :
    (kind : TypeAnnotationRefKind) (ref : TypeAnnotationRef) (a : AttributeInfo)
    → IsFlushStatus (flush_end kind ref a).0
unfolding flush_end
flush_end-IsFlushStatus TypeAnnotationRefKind.span ref a =
    flush_if _ _ _ IsFlushStatus.far IsFlushStatus.fine
flush_end-IsFlushStatus TypeAnnotationRefKind.instruction ref a = IsFlushStatus.fine

flush_into-IsFlushStatus :
    (ref : TypeAnnotationRef) (a : AttributeInfo) → IsFlushStatus (flush_into ref a).0
unfolding flush_into
flush_into-IsFlushStatus ref a =
    elim (Bool-cases (ltb (length a.info) ((ref.payload_offset + ref_size ref.kind) % 2 ^ 32))) [
      | inl short ↦ rw short IsFlushStatus.lost
      | inr room ↦ elim (Bool-cases (is_negative ref.start || ltb max_code_length ref.start)) [
        | inl beyond ↦ rw (room, beyond) IsFlushStatus.far
        | inr within ↦ rw (room, within) (flush_end-IsFlushStatus ref.kind ref _)
      ]
    ]

flush_found-IsFlushStatus :
    (ref : TypeAnnotationRef) (attributes : List AttributeInfo) (found : Option AttributeInfo)
    → IsFlushStatus (flush_found ref attributes found).0
flush_found-IsFlushStatus ref attributes none = IsFlushStatus.lost
flush_found-IsFlushStatus ref attributes (some a) = flush_into-IsFlushStatus ref a

unless_failed-IsFlushStatus :
    (next : List AttributeInfo → Option ClassfileStatus × List AttributeInfo)
    (outcome : Option ClassfileStatus × List AttributeInfo)
    → IsFlushStatus outcome.0
    → ((attributes : List AttributeInfo) → IsFlushStatus (next attributes).0)
    → IsFlushStatus (unless_failed next outcome).0
unless_failed-IsFlushStatus next (some status, attributes) h k = h
unless_failed-IsFlushStatus next (none, attributes) h k = k attributes

flush-IsFlushStatus :
    (refs : List TypeAnnotationRef) (attributes : List AttributeInfo)
    → IsFlushStatus (type_annotation_flush refs attributes).0
unfolding type_annotation_flush
flush-IsFlushStatus [] attributes = IsFlushStatus.fine
flush-IsFlushStatus (ref ∷ refs) attributes =
    unless_failed-IsFlushStatus (type_annotation_flush refs) _
      (flush_found-IsFlushStatus ref attributes (get_elem? attributes ref.attribute_index))
      (flush-IsFlushStatus refs)

-- An outcome there is, by an end that flushing may have, or with the editor as it was.
abbrev pub IsEnded : CodeEditor → Option Outcome → Type 0
IsEnded e result =
    (outcome : Outcome) × (result ≡ some outcome) × (IsFlushStatus outcome.0 ⊎ (outcome.1 ≡ e))

IsEnded-if :
    (e : CodeEditor) (test : Bool) (x y : Option Outcome)
    → IsEnded e x
    → IsEnded e y
    → IsEnded e (if test then x else y)
IsEnded-if e true x y h k = h
IsEnded-if e false x y h k = k

stack-IsFlushStatus :
    (extra : ℕ) (outcome : Outcome)
    → IsFlushStatus outcome.0
    → IsFlushStatus (with_stack extra outcome).0
stack-IsFlushStatus extra (some status, e) h = h
stack-IsFlushStatus extra (none, e) h = h

insert_at-ends :
    (rounds at : ℕ) (nodes : List Instruction) (extra : ℕ) (e : CodeEditor)
    → 2 ≤ rounds
    → (outcome : Outcome) × (insert_at rounds at nodes extra e ≡ some outcome)
      × IsFlushStatus outcome.0
unfolding insert_at settle
insert_at-ends rounds at nodes extra e enough =
    let indexed = (map_all_references offset_to_index true e).1 in
    let shifted = shift_references at (length nodes) (splice at nodes indexed) in
    let (list, run, laid, same) = recompute_offsets-IsLaidOut rounds shifted.instructions enough in
    let placed =
      (map_all_references index_to_offset true (record shifted { instructions = list })).1 in
    (
      with_stack extra (
          with_attributes placed
            (type_annotation_flush placed.type_annotations.items placed.other_attributes.items)),
      rw run refl,
      stack-IsFlushStatus extra _ (flush-IsFlushStatus _ _),
    )

insert_room-ends :
    (rounds at : ℕ) (nodes : List Instruction) (extra : ℕ) (e : CodeEditor)
    (room : Option InstructionList)
    → 2 ≤ rounds
    → IsEnded e (insert_room rounds at nodes extra e room)
insert_room-ends rounds at nodes extra e none enough =
    ((some ClassfileStatus.out_of_memory, e), refl, inr refl)
insert_room-ends rounds at nodes extra e (some list) enough =
    let (outcome, run, status) =
      insert_at-ends rounds at nodes extra (record e { instructions = list }) enough in
    (outcome, run, inl status)

-- With two or more rounds for the offsets an insertion always comes back. It succeeds, or fails with
-- one of the two statuses of writing the type annotations back, or leaves the editor as it was.
pub code_editor_insert-ends :
    (grants : ℕ → Bool) (rounds offset : ℕ) (nodes : List Instruction) (extra_stack : ℕ)
    (e : CodeEditor)
    → 2 ≤ rounds
    → (outcome : Outcome) × (code_editor_insert grants rounds offset nodes extra_stack e
        ≡ some outcome)
      × (IsFlushStatus outcome.0 ⊎ (outcome.1 ≡ e))
unfolding code_editor_insert
code_editor_insert-ends grants rounds offset nodes extra_stack e enough =
    let rehearsed = (map_all_references offset_to_index false e).1 in
    let same = rehearsal-same offset_to_index e in
    let list =
      instruction_list_reserve grants
        ((length rehearsed.instructions.items + length nodes) % 2 ^ 32) rehearsed.instructions in
    IsEnded-if e _ _ _ ((none, e), refl, inr refl)
      (IsEnded-if e _ _ _ ((some ClassfileStatus.bad_offset, e), refl, inr refl)
        (IsEnded-if e _ _ _ ((some ClassfileStatus.limit_exceeded, e), refl, inr refl)
          (IsEnded-if e _ _ _
            (subst
              (λ d. IsEnded d (
                insert_room rounds (offset_to_index e.instructions offset) nodes extra_stack
                  rehearsed list))
              same (insert_room-ends rounds _ nodes extra_stack rehearsed list enough))
            ((some ClassfileStatus.bad_offset, rehearsed), refl, inr same))))
