-- ===== src/CodeAttribute/Runs.antt =====
-- src/visitors/code_attribute.c on a small method body, and the theorems there.
use jni2hook.Base.{ℕ, ◌≡◌, refl, Bool, true, [], ◌∷◌, ◌++◌, ok, arith}
use jni2hook.ByteStream.Cursor.{
  ◌>>=◌, pure, check, require, allocate, reserve, byte_cursor_u2, byte_cursor_u4,
  bytes_or_truncated, read_many, run_whole,
}
use jni2hook.ClassFile.Tree.{AttributeInfo}
use jni2hook.ClassFile.Parser.{read_attribute}
use jni2hook.CodeAttribute.Codec.{
  ExceptionEntry, CodeAttribute, read_exception, read_table, read_exceptions, read_nested,
  read_code_head, read_code, code_attribute_parse, code_attribute_write,
}
use jni2hook.CodeAttribute.Layout.{
  exception_bytes, table_bytes, code_head_bytes, code_bytes, IsCode,
}
use jni2hook.CodeAttribute.Laws.{Accepted, code_parse-write, code_parse-Accepted, code_parse_short}

abbrev always : ℕ → Bool
always n = true

abbrev row : ExceptionEntry
row = record { start_pc = 0; end_pc = 1; handler_pc = 1; catch_type = 0 }

abbrev body : CodeAttribute
body = record {
  max_stack = 1;
  max_locals = 2;
  code = 0x03 ∷ 0xac ∷ [];
  exceptions = row ∷ [];
  attributes = record { attribute_name_index = 9; info = [] } ∷ [];
}

body-IsCode : IsCode body
body-IsCode = record {
  stack = omega arith;
  locals = omega arith;
  sized = omega arith;
  bytes = omega arith;
  exception_count = omega arith;
  exceptions = omega arith;
  attribute_count = omega arith;
  attributes = omega arith;
}

body_parses : code_attribute_parse always (code_bytes body) ≡ ok body
unfolding code_attribute_parse run_whole read_code read_code_head read_exceptions read_nested
    read_table read_exception read_attribute read_many reserve allocate require check byte_cursor_u2
    byte_cursor_u4 bytes_or_truncated ◌>>=◌ pure
body_parses = refl

code_parse-write_example :
    (a : AttributeInfo) × (code_attribute_write always body
        (record { attribute_name_index = 5; info = [] })
      ≡ ok a)
    × (a.attribute_name_index ≡ 5)
    × (code_attribute_parse always a.info ≡ ok body)
code_parse-write_example =
    code_parse-write always body (record { attribute_name_index = 5; info = [] }) (λ n. refl)
      body-IsCode (omega arith)

code_parse-Accepted_example : Accepted body (code_bytes body)
code_parse-Accepted_example =
    code_parse-Accepted always (code_bytes body) body (omega arith) body_parses

code_parse_short_example :
    (code_attribute_parse always
        (code_head_bytes 1 2 (0xb1 ∷ []) ++ table_bytes exception_bytes (row ∷ []))
      ≡ ok (record {
        max_stack = 1;
        max_locals = 2;
        code = 0xb1 ∷ [];
        exceptions = row ∷ [];
        attributes = [];
      }))
    × (code_attribute_parse always (code_head_bytes 1 2 (0xb1 ∷ []))
        ≡ ok (record {
          max_stack = 1;
          max_locals = 2;
          code = 0xb1 ∷ [];
          exceptions = [];
          attributes = [];
        }))
code_parse_short_example =
    code_parse_short always 1 2 (0xb1 ∷ []) (row ∷ []) (λ n. refl) (omega arith) (omega arith)
      (omega arith) (omega arith) (omega arith)
