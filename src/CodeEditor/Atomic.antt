-- ===== src/CodeEditor/Atomic.antt =====
-- src/visitors/code_editor.c, what a refused insertion leaves behind.
use jni2hook.Base.{
  ℕ, zero, suc, ◌≡◌, inl, inr, refl, Bool-cases, false, [], ◌∷◌, length, ◌==◌, arith,
}
use jni2hook.Instruction.Node.{Operand, InstructionList}
use jni2hook.TypeAnnotation.Refs.{TypeAnnotationRefKind}
use jni2hook.CodeEditor.Editor.{CodeEditor}
use jni2hook.CodeEditor.References.{
  Walk, map_reference, walk_first, walk_all, map_u2_reference, walk_pair, walk_operand,
  walk_instruction, walk_exception, walk_line_number, walk_local, walk_type, walk_frame,
  walk_ref_with, walk_ref, walk_references, map_all_references,
}

-- A walk that writes nothing.
abbrev pub Still : {A : Type 0} → Walk A → Type 0
Still {A} w = (a : A) → (w a).1 ≡ a

Still-reference : (map : ℕ → ℕ) → Still (map_reference map false)
unfolding map_reference
Still-reference map v = ground arith

Still-first : {A : Type 0} (w : Walk A) → Still w → (n : ℕ) → Still (walk_first n w)
unfolding walk_first
Still-first w h zero xs = refl
Still-first w h (suc n) [] = refl
Still-first w h (suc n) (x ∷ xs) = rw (h x, Still-first w h n xs) refl

Still-all : {A : Type 0} (w : Walk A) → Still w → Still (walk_all w)
Still-all w h xs = Still-first w h (length xs) xs

module _ (w : Walk ℕ) (h : Still w) where
  Still-u2 : Still (map_u2_reference false w w)
  unfolding map_u2_reference
  Still-u2 v = ground arith

  Still-pair : Still (walk_pair false w w)
  unfolding walk_pair
  Still-pair p = rw (h p.target) refl

  Still-operand : Still (walk_operand false w w)
  unfolding walk_operand
  Still-operand (Operand.branch target) = rw (h target) refl
  Still-operand (Operand.branch_wide target) = rw (h target) refl
  Still-operand (Operand.table_switch default low high targets) =
      rw (h default, Still-first w h _ targets) refl
  Still-operand (Operand.lookup_switch default pairs) =
      rw (h default, Still-all (walk_pair false w w) Still-pair pairs) refl
  Still-operand Operand.no_operand = refl
  Still-operand (Operand.immediate value) = refl
  Still-operand (Operand.local index) = refl
  Still-operand (Operand.iinc index delta) = refl
  Still-operand (Operand.constant index) = refl
  Still-operand (Operand.cp_index index) = refl
  Still-operand (Operand.invoke_interface index count last) = refl
  Still-operand (Operand.invoke_dynamic index last) = refl
  Still-operand (Operand.multianewarray index dimensions) = refl

  Still-instruction : Still (walk_instruction false w w)
  unfolding walk_instruction
  Still-instruction node = rw (Still-operand node.operand) refl

  Still-exception : Still (walk_exception false w w)
  unfolding walk_exception
  Still-exception e = rw (Still-u2 e.start_pc, Still-u2 e.end_pc, Still-u2 e.handler_pc) refl

  Still-line_number : Still (walk_line_number false w w)
  unfolding walk_line_number
  Still-line_number e = rw (Still-u2 e.start_pc) refl

  Still-local : Still (walk_local false w w)
  unfolding walk_local
  Still-local e = refl

  Still-type : Still (walk_type false w w)
  unfolding walk_type
  Still-type t = elim (Bool-cases (t.tag == 8)) [
    | inl tagged ↦ rw (tagged, h t.offset) refl
    | inr untagged ↦ rw untagged refl
  ]

  Still-frame : Still (walk_frame false w w)
  unfolding walk_frame
  Still-frame frame =
      rw
        (
          h frame.offset,
          Still-all (walk_type false w w) Still-type frame.locals,
          Still-all (walk_type false w w) Still-type frame.stack,
        )
        refl

  Still-ref_with : (kind : TypeAnnotationRefKind) → Still (walk_ref_with false w w kind)
  unfolding walk_ref_with
  Still-ref_with TypeAnnotationRefKind.span ref = rw (h ref.start, h ref.end) refl
  Still-ref_with TypeAnnotationRefKind.instruction ref = rw (h ref.start) refl

  Still-ref : Still (walk_ref false w w)
  unfolding walk_ref
  Still-ref ref = Still-ref_with ref.kind ref

  Still-references : Still (walk_references false w w)
  unfolding walk_references
  Still-references e =
      rw
        (
          Still-all (walk_instruction false w w) Still-instruction e.instructions.items,
          Still-all (walk_exception false w w) Still-exception e.exceptions.items,
          Still-all (walk_line_number false w w) Still-line_number e.line_numbers,
          Still-all (walk_local false w w) Still-local e.locals,
          Still-all (walk_local false w w) Still-local e.local_types,
          Still-all (walk_frame false w w) Still-frame e.stack_map,
          Still-all (walk_ref false w w) Still-ref e.type_annotations.items,
        )
        refl

-- A rehearsal, which maps the references without applying the map, leaves the editor as it is.
pub rehearsal-same :
    (map : InstructionList → ℕ → ℕ) (e : CodeEditor) → (map_all_references map false e).1 ≡ e
unfolding map_all_references
rehearsal-same map e = Still-references _ (Still-reference (map e.instructions)) e
