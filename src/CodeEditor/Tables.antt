-- ===== src/CodeEditor/Tables.antt =====
-- src/visitors/code_editor.c, the line number and local variable tables: reading them into the editor
-- and writing them.
use jni2hook.Base.{
  ℕ, ◌+◌, ◌*◌, Bool, true, ◌||◌, not, List, ◌++◌, length, Result, ok, err, bind, ClassfileStatus,
  if◌then◌else◌, ltb, ◌==◌,
}
use jni2hook.ByteStream.Cursor.{
  Reader, ◌>>=◌, ◌>>◌, pure, check, require, byte_cursor_init, byte_cursor_u2, read_many,
}
use jni2hook.ByteStream.Buffer
use jni2hook.ByteStream.Buffer.{
  Writer, byte_buffer_init, byte_buffer_ok, byte_buffer_u2, write_many,
}
use jni2hook.ClassFile.Tree.{AttributeInfo}
use jni2hook.ConstantPool.Pool.{max_count}
use jni2hook.CodeEditor.Editor.{CodeEditor, LineNumberEntry, LocalVariableEntry}

-- `sizeof(line_number_entry)` and `sizeof(local_variable_entry)`
abbrev pub line_number_entry_size : ℕ
line_number_entry_size = 4

abbrev pub local_variable_entry_size : ℕ
local_variable_entry_size = 10

unfoldable pub read_line_number : Reader LineNumberEntry
read_line_number = do
  start ← byte_cursor_u2
  line ← byte_cursor_u2
  pure (record { start_pc = start; line_number = line })

unfoldable pub read_local : Reader LocalVariableEntry
read_local = do
  start ← byte_cursor_u2
  size ← byte_cursor_u2
  name ← byte_cursor_u2
  descriptor ← byte_cursor_u2
  index ← byte_cursor_u2
  pure (record {
    start_pc = start;
    length = size;
    name_index = name;
    descriptor_index = descriptor;
    index = index;
  })

-- A reader that may leave bytes behind, as a function of the input.
unfoldable pub run_front : {A : Type 0} → Reader A → List ℕ → Result A
unfolding byte_cursor_init
run_front p bytes = bind (p (byte_cursor_init bytes)) (λ (a, c). ok a)

module _ (grants : ℕ → Bool) where
  -- Room for so many more entries behind those that a table has.
  unfoldable pub grow_table : ℕ → ℕ → ℕ → Reader (Unit {0})
  grow_table count added stride = do
    require (not (ltb max_count (count + added))) ClassfileStatus.limit_exceeded
    require (count + added == 0 || grants ((count + added) * stride)) ClassfileStatus.out_of_memory

  -- What `read_line_numbers` and `read_locals` share: the entries behind those that there are.
  unfoldable pub read_entries : {A : Type 0} → Reader A → ℕ → List A → Reader (List A)
  read_entries body stride entries = do
    count ← byte_cursor_u2
    check ClassfileStatus.truncated
    grow_table (length entries) count stride
    appended ← read_many count body
    check ClassfileStatus.truncated
    pure (entries ++ appended)

  unfoldable pub read_line_numbers : AttributeInfo → CodeEditor → Result CodeEditor
  read_line_numbers attribute editor =
      bind
        (run_front (read_entries read_line_number line_number_entry_size editor.line_numbers)
          attribute.info)
        (λ entries. ok (record editor {
          line_numbers = entries;
          has_line_numbers = true;
          line_number_name_index = attribute.attribute_name_index;
        }))

  unfoldable pub read_locals :
      AttributeInfo → List LocalVariableEntry → Result (List LocalVariableEntry)
  read_locals attribute entries =
      run_front (read_entries read_local local_variable_entry_size entries) attribute.info

  abbrev u2 : ℕ → Writer
  u2 = byte_buffer_u2 grants

  unfoldable pub write_line_number : LineNumberEntry → Writer
  write_line_number e = Buffer.◌>>◌ (u2 e.start_pc) (u2 e.line_number)

  unfoldable pub write_line_numbers : List LineNumberEntry → Writer
  write_line_numbers entries =
      Buffer.◌>>◌ (u2 (length entries)) (write_many write_line_number entries)

  unfoldable pub write_local : LocalVariableEntry → Writer
  write_local e = Buffer.◌>>◌ (u2 e.start_pc) (
      Buffer.◌>>◌ (u2 e.length)
        (Buffer.◌>>◌ (u2 e.name_index) (Buffer.◌>>◌ (u2 e.descriptor_index) (u2 e.index))))

  unfoldable pub write_locals : List LocalVariableEntry → Writer
  write_locals entries = Buffer.◌>>◌ (u2 (length entries)) (write_many write_local entries)

  -- What was written, as the payload of an attribute.
  unfoldable pub take_buffer : Writer → ℕ → Result AttributeInfo
  take_buffer w name_index =
      let b = w byte_buffer_init in
      if byte_buffer_ok b
      then (if ltb 0xFFFFFFFF (length b.written)
          then err ClassfileStatus.limit_exceeded
          else ok (record { attribute_name_index = name_index; info = b.written }))
      else err ClassfileStatus.out_of_memory
