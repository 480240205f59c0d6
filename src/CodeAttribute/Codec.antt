-- ===== src/CodeAttribute/Codec.antt =====
-- src/visitors/code_attribute.c.
use jni2hook.Base.{
  ℕ, ◌+◌, ◌%◌, ◌^◌, Bool, List, length, Result, ok, err, ClassfileStatus, if◌then◌else◌, ltb,
}
use jni2hook.ByteStream.Cursor.{
  Reader, ◌>>=◌, ◌>>◌, pure, check, allocate, reserve, copy_size, byte_cursor_u2, byte_cursor_u4,
  bytes_or_truncated, read_many, run_whole,
}
use jni2hook.ByteStream.Buffer
use jni2hook.ByteStream.Buffer.{
  Writer, byte_buffer_init, byte_buffer_ok, byte_buffer_reserve, byte_buffer_u2, byte_buffer_u4,
  byte_buffer_bytes, write_many,
}
use jni2hook.ClassFile.Tree.{AttributeInfo}
use jni2hook.ClassFile.Parser.{read_attribute, attribute_info_size}
use jni2hook.ClassFile.Writer.{write_attribute}

pub record ExceptionEntry : Type 0 where
  pub start_pc : ℕ
  pub end_pc : ℕ
  pub handler_pc : ℕ
  pub catch_type : ℕ

-- `code_length` is the length of `code`.
pub record CodeAttribute : Type 0 where
  pub max_stack : ℕ
  pub max_locals : ℕ
  pub code : List ℕ
  pub exceptions : List ExceptionEntry
  pub attributes : List AttributeInfo

-- `sizeof(exception_entry)`
abbrev pub exception_entry_size : ℕ
exception_entry_size = 8

-- The body of the loop over the exception table.
unfoldable pub read_exception : Reader ExceptionEntry
read_exception = do
  start ← byte_cursor_u2
  end ← byte_cursor_u2
  handler ← byte_cursor_u2
  catch ← byte_cursor_u2
  check ClassfileStatus.truncated
  pure (record { start_pc = start; end_pc = end; handler_pc = handler; catch_type = catch })

-- A count that is not checked, the room for so many elements, and the elements.
unfoldable pub read_table : {A : Type 0} → (ℕ → Bool) → ℕ → Reader A → Reader (List A)
read_table grants stride body = do
  count ← byte_cursor_u2
  reserve grants count stride
  read_many count body

module _ (grants : ℕ → Bool) where
  unfoldable pub read_exceptions : Reader (List ExceptionEntry)
  read_exceptions = read_table grants exception_entry_size read_exception

  unfoldable pub read_nested : Reader (List AttributeInfo)
  read_nested = read_table grants attribute_info_size (read_attribute grants)

  -- `code_attribute_parse` up to the copy of the code: `max_stack`, `max_locals` and `code`.
  unfoldable pub read_code_head : Reader (ℕ × ℕ × List ℕ)
  read_code_head = do
    max_stack ← byte_cursor_u2
    max_locals ← byte_cursor_u2
    n ← byte_cursor_u4
    code ← bytes_or_truncated n
    allocate grants (copy_size n)
    pure (max_stack, max_locals, code)

  -- `code_attribute_parse` up to the test for bytes that are left.
  unfoldable pub read_code : Reader CodeAttribute
  read_code = do
    head ← read_code_head
    exceptions ← read_exceptions
    attributes ← read_nested
    pure (record {
      max_stack = head.0;
      max_locals = head.1;
      code = head.2;
      exceptions = exceptions;
      attributes = attributes;
    })

  unfoldable pub code_attribute_parse : List ℕ → Result CodeAttribute
  code_attribute_parse = run_whole read_code

  abbrev u2 : ℕ → Writer
  u2 = byte_buffer_u2 grants

  unfoldable pub write_exception : ExceptionEntry → Writer
  write_exception e =
      Buffer.◌>>◌ (u2 e.start_pc)
        (Buffer.◌>>◌ (u2 e.end_pc) (Buffer.◌>>◌ (u2 e.handler_pc) (u2 e.catch_type)))

  -- All writes of `code_attribute_write`; the room asked for first is computed as a u4.
  unfoldable pub write_code : CodeAttribute → Writer
  write_code c = Buffer.◌>>◌ (byte_buffer_reserve grants ((length c.code + 64) % 2 ^ 32)) (
      Buffer.◌>>◌ (u2 c.max_stack) (
        Buffer.◌>>◌ (u2 c.max_locals) (
          Buffer.◌>>◌ (byte_buffer_u4 grants (length c.code)) (
            Buffer.◌>>◌ (byte_buffer_bytes grants c.code) (
              Buffer.◌>>◌ (u2 (length c.exceptions)) (
                Buffer.◌>>◌ (write_many write_exception c.exceptions) (
                  Buffer.◌>>◌ (u2 (length c.attributes))
                    (write_many (write_attribute grants) c.attributes))))))))

  -- The attribute keeps its name and takes the new payload.
  unfoldable pub code_attribute_write : CodeAttribute → AttributeInfo → Result AttributeInfo
  code_attribute_write c attribute =
      let b = write_code c byte_buffer_init in
      if byte_buffer_ok b
      then (if ltb 0xFFFFFFFF (length b.written)
          then err ClassfileStatus.limit_exceeded
          else ok (record attribute { info = b.written }))
      else err ClassfileStatus.out_of_memory
