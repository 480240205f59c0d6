-- ===== src/CodeEditor/TableLaws.antt =====
-- src/visitors/code_editor.c, the line number and local variable tables: what is written is read back.
use jni2hook.Base.{
  ℕ, ◌+◌, ◌*◌, ◌^◌, ◌≤◌, ◌<◌, ◌≡◌, refl, subst, Bool, true, false, List, [], ◌∷◌, ◌++◌, append-nil,
  length, All, ok, ltb, arith,
}
use jni2hook.ByteStream.Cursor.{Reader, byte_cursor_init}
use jni2hook.ByteStream.Buffer.{Writer, byte_buffer_init, byte_buffer_ok}
use jni2hook.ByteStream.Reads.{
  Reads, Reads-bind, Reads-then, Reads-last, Reads-pure, Reads-check, Reads-require, Reads-u2, be2,
  cursor_at,
}
use jni2hook.ByteStream.Writes.{Plenty, Writes, Writes-u2, Writes-then}
use jni2hook.ByteStream.Many.{many_bytes, Reads-many, Writes-many}
use jni2hook.ClassFile.Tree.{AttributeInfo}
use jni2hook.ConstantPool.Pool.{max_count}
use jni2hook.CodeEditor.Editor.{CodeEditor, LineNumberEntry, LocalVariableEntry}
use jni2hook.CodeEditor.Tables.{
  read_line_number, read_local, run_front, grow_table, read_entries, read_line_numbers, read_locals,
  line_number_entry_size, local_variable_entry_size, write_line_number, write_line_numbers,
  write_local, write_locals, take_buffer,
}

abbrev pub line_number_bytes : LineNumberEntry → List ℕ
line_number_bytes e = be2 e.start_pc ++ be2 e.line_number

abbrev pub local_bytes : LocalVariableEntry → List ℕ
local_bytes e =
    be2 e.start_pc
    ++ (be2 e.length ++ (be2 e.name_index ++ (be2 e.descriptor_index ++ be2 e.index)))

abbrev pub IsLineNumber : LineNumberEntry → Type 0
IsLineNumber e = (e.start_pc < 65536) × (e.line_number < 65536)

abbrev pub IsLocal : LocalVariableEntry → Type 0
IsLocal e =
    (e.start_pc < 65536)
    × (e.length < 65536)
    × (e.name_index < 65536)
    × (e.descriptor_index < 65536)
    × (e.index < 65536)

abbrev pub table_bytes : {A : Type 0} → (A → List ℕ) → List A → List ℕ
table_bytes layout entries = be2 (length entries) ++ many_bytes layout entries

Reads-line_number :
    (e : LineNumberEntry) → IsLineNumber e → Reads read_line_number (line_number_bytes e) e
unfolding read_line_number
Reads-line_number e h =
    Reads-bind _ _ (Reads-u2 e.start_pc h.0)
      (Reads-last _ _ (Reads-u2 e.line_number h.1) (Reads-pure _))

Reads-local : (e : LocalVariableEntry) → IsLocal e → Reads read_local (local_bytes e) e
unfolding read_local
Reads-local e h = Reads-bind _ _ (Reads-u2 e.start_pc h.0) (
    Reads-bind _ _ (Reads-u2 e.length h.1) (
      Reads-bind _ _ (Reads-u2 e.name_index h.2) (
        Reads-bind _ _ (Reads-u2 e.descriptor_index h.3)
          (Reads-last _ _ (Reads-u2 e.index h.4) (Reads-pure _)))))

front_of_run :
    {A : Type 0} (p : Reader A) (bytes : List ℕ) (a : A)
    → Reads p bytes a
    → run_front p bytes ≡ ok a
unfolding run_front byte_cursor_init
front_of_run p bytes a h =
    let run =
      subst (λ xs. p (cursor_at xs 0) ≡ ok (a, cursor_at [] (0 + length bytes))) (append-nil bytes)
        (h.run [] 0) in
    rw run refl

module _ (grants : ℕ → Bool) (plenty : Plenty grants) where
  Reads-grow :
      (count added stride : ℕ)
      → count + added ≤ max_count
      → Reads (grow_table grants count added stride) [] tt
  unfolding grow_table
  Reads-grow count added stride room =
      Reads-then _ _ (Reads-require _ _ (ground arith))
        (Reads-require _ _ (ground (arith, plenty ((count + added) * stride))))

  Reads-entries :
      {A : Type 0} (layout : A → List ℕ) (IsFit : A → Type 0) (body : Reader A)
      → ((a : A) → IsFit a → Reads body (layout a) a)
      → (stride : ℕ) (before entries : List A) → All IsFit entries
      → length before + length entries ≤ max_count
      → Reads
          (read_entries grants body stride before)
          (table_bytes layout entries)
          (before ++ entries)
  unfolding read_entries
  Reads-entries layout IsFit body reads stride before entries fit room =
      Reads-bind _ _ (Reads-u2 (length entries) (omega arith)) (
        Reads-then _ _ (Reads-check _) (
          Reads-then _ _ (Reads-grow (length before) (length entries) stride room) (
            Reads-last _ _ (Reads-many layout IsFit body reads entries fit)
              (Reads-then _ _ (Reads-check _) (Reads-pure _)))))

  Writes-line_number :
      (e : LineNumberEntry) → Writes grants (write_line_number grants e) (line_number_bytes e)
  unfolding write_line_number
  Writes-line_number e = Writes-then grants _ _ (Writes-u2 grants _) (Writes-u2 grants _)

  Writes-local : (e : LocalVariableEntry) → Writes grants (write_local grants e) (local_bytes e)
  unfolding write_local
  Writes-local e = Writes-then grants _ _ (Writes-u2 grants _) (
      Writes-then grants _ _ (Writes-u2 grants _) (
        Writes-then grants _ _ (Writes-u2 grants _)
          (Writes-then grants _ _ (Writes-u2 grants _) (Writes-u2 grants _))))

  taken :
      (w : Writer) (bytes : List ℕ) (name_index : ℕ)
      → Writes grants w bytes
      → length bytes < 2 ^ 32
      → take_buffer grants w name_index
        ≡ ok (record { attribute_name_index = name_index; info = bytes })
  unfolding take_buffer byte_buffer_init byte_buffer_ok
  taken w bytes name_index h small =
      let good = h.succeeds byte_buffer_init plenty refl in
      let same = (h.appends byte_buffer_init (omega arith) good).1 in
      let short : ltb 0xFFFFFFFF (length bytes) ≡ false = ground arith in
      rw (good, same, short) refl

  length-line_numbers :
      (entries : List LineNumberEntry)
      → length (many_bytes line_number_bytes entries) ≡ length entries * 4
  length-line_numbers [] = refl
  length-line_numbers (e ∷ entries) = omega (arith, length-line_numbers entries)

  length-locals :
      (entries : List LocalVariableEntry)
      → length (many_bytes local_bytes entries) ≡ length entries * 10
  length-locals [] = refl
  length-locals (e ∷ entries) = omega (arith, length-locals entries)

  -- With an allocator that grants every request: a line number table whose numbers fit in 16 bits is
  -- written, and reading the payload into an editor puts its entries behind those that the editor has,
  -- where together they are at most 65535, and notes the name of the attribute.
  pub read_line_numbers-write :
      (entries : List LineNumberEntry) (name_index : ℕ) (e : CodeEditor)
      → All IsLineNumber entries
      → length e.line_numbers + length entries ≤ max_count
      → (a : AttributeInfo) × (take_buffer grants (write_line_numbers grants entries) name_index
          ≡ ok a)
        × (read_line_numbers grants a e
            ≡ ok (record e {
              line_numbers = e.line_numbers ++ entries;
              has_line_numbers = true;
              line_number_name_index = name_index;
            }))
  unfolding write_line_numbers read_line_numbers
  read_line_numbers-write entries name_index e fit room =
      let writes =
        Writes-then grants _ _ (Writes-u2 grants (length entries))
          (Writes-many grants line_number_bytes _ Writes-line_number entries) in
      let small = length-line_numbers entries in
      let read = front_of_run _ _ _ (
        Reads-entries line_number_bytes IsLineNumber read_line_number Reads-line_number
          line_number_entry_size e.line_numbers entries fit room) in
      (
        record { attribute_name_index = name_index; info = table_bytes line_number_bytes entries },
        taken _ _ name_index writes (omega arith),
        rw read refl,
      )

  -- The same for a local variable table.
  pub read_locals-write :
      (entries : List LocalVariableEntry) (name_index : ℕ) (before : List LocalVariableEntry)
      → All IsLocal entries
      → length before + length entries ≤ max_count
      → (a : AttributeInfo) × (take_buffer grants (write_locals grants entries) name_index ≡ ok a)
        × (a.attribute_name_index ≡ name_index)
        × (read_locals grants a before ≡ ok (before ++ entries))
  unfolding write_locals read_locals
  read_locals-write entries name_index before fit room =
      let writes =
        Writes-then grants _ _ (Writes-u2 grants (length entries))
          (Writes-many grants local_bytes _ Writes-local entries) in
      let small = length-locals entries in
      (
        record { attribute_name_index = name_index; info = table_bytes local_bytes entries },
        taken _ _ name_index writes (omega arith),
        refl,
        front_of_run _ _ _ (
            Reads-entries local_bytes IsLocal read_local Reads-local local_variable_entry_size
              before entries fit room),
      )
