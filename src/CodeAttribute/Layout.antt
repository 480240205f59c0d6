-- ===== src/CodeAttribute/Layout.antt =====
-- The Code attribute (JVMS 4.7.3) as bytes, and which nodes it can hold.
use jni2hook.Base.{ℕ, ◌<◌, ◌^◌, List, ◌++◌, length, All}
use jni2hook.ByteStream.Cursor.{IsByte}
use jni2hook.ByteStream.Reads.{be2, be4}
use jni2hook.ByteStream.Many.{many_bytes}
use jni2hook.ConstantPool.Entry.{IsU2}
use jni2hook.ClassFile.RoundTrip.Layout.{attribute_bytes, IsAttribute}
use jni2hook.CodeAttribute.Codec.{ExceptionEntry, CodeAttribute}

abbrev pub exception_bytes : ExceptionEntry → List ℕ
exception_bytes e = be2 e.start_pc ++ (be2 e.end_pc ++ (be2 e.handler_pc ++ be2 e.catch_type))

abbrev pub table_bytes : {A : Type 0} → (A → List ℕ) → List A → List ℕ
table_bytes layout items = be2 (length items) ++ many_bytes layout items

abbrev pub code_head_bytes : ℕ → ℕ → List ℕ → List ℕ
code_head_bytes max_stack max_locals code =
    be2 max_stack ++ (be2 max_locals ++ (be4 (length code) ++ code))

abbrev pub code_bytes : CodeAttribute → List ℕ
code_bytes c =
    code_head_bytes c.max_stack c.max_locals c.code
    ++ (table_bytes exception_bytes c.exceptions ++ table_bytes attribute_bytes c.attributes)

abbrev pub IsException : ExceptionEntry → Type 0
IsException e = IsU2 e.start_pc × IsU2 e.end_pc × IsU2 e.handler_pc × IsU2 e.catch_type

pub record IsCode (c : CodeAttribute) : Type 0 where
  pub stack : IsU2 c.max_stack
  pub locals : IsU2 c.max_locals
  pub sized : length c.code < 2 ^ 32
  pub bytes : All IsByte c.code
  pub exception_count : IsU2 (length c.exceptions)
  pub exceptions : All IsException c.exceptions
  pub attribute_count : IsU2 (length c.attributes)
  pub attributes : All IsAttribute c.attributes
