-- ===== src/CodeEditor/References.antt =====
-- src/visitors/code_editor.c, `map_all_references` and the walk by which an insertion shifts every
-- reference. Both visit the same references in the same order, so one walk stands for both. An `i4`
-- is its 32-bit pattern.
use jni2hook.Base.{
  ℕ, zero, suc, ◌+◌, ◌-◌, ◌%◌, Bool, true, false, ◌&&◌, List, [], ◌∷◌, Option, none, some, length,
  get_elem?, if◌then◌else◌, ltb, leb, ◌==◌,
}
use jni2hook.Instruction.Node.{
  SwitchPair, Operand, Instruction, InstructionList, instruction_switch_entries, biased,
}
use jni2hook.CodeAttribute.Codec.{ExceptionEntry}
use jni2hook.StackMapTable.Codec.{StackMapFrame, VerificationType}
use jni2hook.TypeAnnotation.Refs.{TypeAnnotationRef, TypeAnnotationRefKind, is_negative}
use jni2hook.CodeEditor.Editor.{LineNumberEntry, LocalVariableEntry, CodeEditor}

abbrev pub minus_one : ℕ
minus_one = 4294967295

abbrev pub index_or_minus_one : Option ℕ → ℕ
index_or_minus_one none = minus_one
index_or_minus_one (some i) = i

-- The first instruction at the offset, by its index.
unfoldable pub index_at_offset : List Instruction → ℕ → ℕ → Option ℕ
index_at_offset [] offset i = none
index_at_offset (node ∷ nodes) offset i =
    let later = index_at_offset nodes offset (i + 1) in
    if node.offset == offset then some i else later

unfoldable pub offset_to_index : InstructionList → ℕ → ℕ
offset_to_index list offset =
    if is_negative offset
    then minus_one
    else (if offset == list.code_length
        then length list.items
        else index_or_minus_one (index_at_offset list.items offset 0))

abbrev pub offset_found : InstructionList → Option Instruction → ℕ
offset_found list none = list.code_length
offset_found list (some node) = node.offset

unfoldable pub index_to_offset : InstructionList → ℕ → ℕ
index_to_offset list index =
    if is_negative index then minus_one else offset_found list (get_elem? list.items index)

-- Whether every reference could be mapped, and the value afterwards.
abbrev pub Walk : Type 0 → Type 0
Walk A = A → Bool × A

unfoldable pub map_reference : (ℕ → ℕ) → Bool → Walk ℕ
map_reference map apply value =
    if is_negative (map value) then (false, value) else (true, if apply then map value else value)

unfoldable pub walk_first : {A : Type 0} → ℕ → Walk A → Walk (List A)
walk_first zero w xs = (true, xs)
walk_first (suc n) w [] = (true, [])
walk_first (suc n) w (x ∷ xs) =
    let (here, x') = w x in let (later, xs') = walk_first n w xs in (here && later, x' ∷ xs')

abbrev pub walk_all : {A : Type 0} → Walk A → Walk (List A)
walk_all w xs = walk_first (length xs) w xs

-- `apply` is false in a rehearsal. A reference to a position and one to an instruction are told apart.
module _ (apply : Bool) (position instruction : Walk ℕ) where
  unfoldable pub map_u2_reference : Walk ℕ
  map_u2_reference value =
      let (fine, mapped) = position value in (fine, if fine && apply then mapped % 65536 else value)

  unfoldable pub walk_pair : Walk SwitchPair
  walk_pair p = let (fine, target) = position p.target in (fine, record p { target = target })

  unfoldable pub walk_operand : Walk Operand
  walk_operand (Operand.branch target) = let (fine, t) = position target in (fine, Operand.branch t)
  walk_operand (Operand.branch_wide target) =
      let (fine, t) = position target in (fine, Operand.branch_wide t)
  walk_operand (Operand.table_switch default low high targets) =
      let (first, d) = position default in
      let (later, ts) =
        walk_first (instruction_switch_entries (Operand.table_switch default low high targets))
          position targets in
      (first && later, Operand.table_switch d low high ts)
  walk_operand (Operand.lookup_switch default pairs) =
      let (first, d) = position default in
      let (later, ps) = walk_all walk_pair pairs in (first && later, Operand.lookup_switch d ps)
  walk_operand other = (true, other)

  unfoldable pub walk_instruction : Walk Instruction
  walk_instruction node =
      let (fine, operand) = walk_operand node.operand in (fine, record node { operand = operand })

  unfoldable pub walk_exception : Walk ExceptionEntry
  walk_exception e =
      let (a, start) = map_u2_reference e.start_pc in
      let (b, end) = map_u2_reference e.end_pc in
      let (c, handler) = map_u2_reference e.handler_pc in
      (a && b && c, record e { start_pc = start; end_pc = end; handler_pc = handler })

  unfoldable pub walk_line_number : Walk LineNumberEntry
  walk_line_number e =
      let (fine, start) = map_u2_reference e.start_pc in (fine, record e { start_pc = start })

  -- Both ends of the span move.
  unfoldable pub walk_local : Walk LocalVariableEntry
  walk_local e =
      let (a, start) = position e.start_pc in
      let (b, end) = position (e.start_pc + e.length) in
      (
        a && b,
        if apply
            then record e {
              start_pc = start % 65536;
              length = (end + (4294967296 - start)) % 65536;
            }
            else e,
      )

  unfoldable pub walk_type : Walk VerificationType
  walk_type t =
      let (fine, offset) = instruction t.offset in
      if t.tag == 8 then (fine, record t { offset = offset }) else (true, t)

  unfoldable pub walk_frame : Walk StackMapFrame
  walk_frame frame =
      let (a, offset) = position frame.offset in
      let (b, locals) = walk_all walk_type frame.locals in
      let (c, stack) = walk_all walk_type frame.stack in
      (a && b && c, record frame { offset = offset; locals = locals; stack = stack })

  unfoldable pub walk_ref_with : TypeAnnotationRefKind → Walk TypeAnnotationRef
  walk_ref_with TypeAnnotationRefKind.span ref =
      let (a, start) = position ref.start in
      let (b, end) = position ref.end in (a && b, record ref { start = start; end = end })
  walk_ref_with TypeAnnotationRefKind.instruction ref =
      let (fine, start) = instruction ref.start in (fine, record ref { start = start })

  unfoldable pub walk_ref : Walk TypeAnnotationRef
  walk_ref ref = walk_ref_with ref.kind ref

  unfoldable pub walk_references : Walk CodeEditor
  walk_references e =
      let (a, items) = walk_all walk_instruction e.instructions.items in
      let (b, exceptions) = walk_all walk_exception e.exceptions.items in
      let (c, line_numbers) = walk_all walk_line_number e.line_numbers in
      let (d, locals) = walk_all walk_local e.locals in
      let (f, local_types) = walk_all walk_local e.local_types in
      let (g, frames) = walk_all walk_frame e.stack_map in
      let (h, refs) = walk_all walk_ref e.type_annotations.items in
      (
        a && b && c && d && f && g && h,
        record e {
          instructions = record e.instructions { items = items };
          exceptions = record e.exceptions { items = exceptions };
          line_numbers = line_numbers;
          locals = locals;
          local_types = local_types;
          stack_map = frames;
          type_annotations = record e.type_annotations { items = refs };
        },
      )

-- A map reads the offsets, the count and the code length of the instructions, which a walk leaves as
-- they are.
unfoldable pub map_all_references : (InstructionList → ℕ → ℕ) → Bool → Walk CodeEditor
map_all_references map apply e =
    walk_references apply (map_reference (map e.instructions) apply)
      (map_reference (map e.instructions) apply) e

unfoldable pub shift_after : ℕ → ℕ → ℕ → ℕ
shift_after at count index =
    if ltb (biased at) (biased index) then (index + count) % 4294967296 else index

unfoldable pub shift_with : ℕ → ℕ → ℕ → ℕ
shift_with at count index =
    if leb (biased at) (biased index) then (index + count) % 4294967296 else index

-- The loops over all references behind the insertion itself.
unfoldable pub shift_references : ℕ → ℕ → CodeEditor → CodeEditor
shift_references at count e =
    (walk_references true (λ v. (true, shift_after at count v)) (λ v. (true, shift_with at count v))
      e).1
