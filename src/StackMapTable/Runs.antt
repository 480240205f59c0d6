-- ===== src/StackMapTable/Runs.antt =====
-- src/visitors/stack_map_table.c: a table of a short frame, a long frame that could be short, and an
-- append of an Object and an Uninitialized local.
use jni2hook.Base.{
  ℕ, ◌≡◌, refl, Bool, true, List, [], ◌∷◌, ◌++◌, ok, err, ClassfileStatus, inl, arith,
}
use jni2hook.ByteStream.Cursor.{
  ◌>>=◌, pure, check, require, allocate, reserve, byte_cursor_init, byte_cursor_u1, byte_cursor_u2,
  byte_cursor_exhausted, cursor_need, read_many, run_whole, expect_end,
}
use jni2hook.ClassFile.Tree.{AttributeInfo}
use jni2hook.StackMapTable.Codec.{
  FrameKind, StackMapFrame, read_item, read_type, read_head, read_types, read_parts, read_frame,
  read_frames, read_frame_table, stack_map_table_parse, stack_map_table_write,
}
use jni2hook.StackMapTable.Laws.{table_write-parse, table_write_gap}

abbrev all_granted : ℕ → Bool
all_granted n = true

abbrev payload : List ℕ
payload = 0 ∷ 3 ∷ 5 ∷ 251 ∷ 0 ∷ 4 ∷ 253 ∷ 1 ∷ 0 ∷ 7 ∷ 0 ∷ 9 ∷ 8 ∷ 0 ∷ 2 ∷ []

abbrev short_frame : StackMapFrame
short_frame = record {
  raw_tag = 5;
  kind = FrameKind.same;
  offset = 5;
  chop_count = 0;
  locals = [];
  stack = [];
}

abbrev long_frame : StackMapFrame
long_frame = record {
  raw_tag = 251;
  kind = FrameKind.same;
  offset = 10;
  chop_count = 0;
  locals = [];
  stack = [];
}

abbrev append_frame : StackMapFrame
append_frame = record {
  raw_tag = 253;
  kind = FrameKind.append;
  offset = 267;
  chop_count = 0;
  locals =
      record { tag = 7; cpool_index = 9; offset = 0 }
      ∷ record { tag = 8; cpool_index = 0; offset = 2 }
      ∷ [];
  stack = [];
}

abbrev attribute : AttributeInfo
attribute = record { attribute_name_index = 4; info = [] }

parse_run :
    stack_map_table_parse all_granted payload ≡ ok (short_frame ∷ long_frame ∷ append_frame ∷ [])
unfolding stack_map_table_parse read_frame_table read_frames read_frame read_parts read_types
    read_head read_type read_item run_whole read_many expect_end byte_cursor_init byte_cursor_u1
    byte_cursor_u2 byte_cursor_exhausted cursor_need check require allocate reserve pure ◌>>=◌
parse_run = refl

table_write-parse_example :
    stack_map_table_write all_granted (short_frame ∷ long_frame ∷ append_frame ∷ []) attribute
    ≡ ok (record attribute { info = payload })
table_write-parse_example =
    table_write-parse all_granted payload (short_frame ∷ long_frame ∷ append_frame ∷ []) attribute
      (λ n. refl) (omega arith) (omega arith) parse_run

table_write_gap_example :
    stack_map_table_write all_granted
      ((short_frame ∷ []) ++ (long_frame ∷ short_frame ∷ []))
      attribute
    ≡ err ClassfileStatus.limit_exceeded
table_write_gap_example =
    table_write_gap all_granted (short_frame ∷ []) long_frame short_frame [] attribute (omega arith)
      (omega arith) (inl (omega arith))
