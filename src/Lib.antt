-- ===== src/Lib.antt =====
-- jni2hook hooks Java methods in a running JVM by rewriting class files. This library models the
-- part that reads, writes and edits class files.
--
-- How the program's parts interact. src/byte_stream.c holds a bounds-checked reader and a growable
-- writer of big-endian numbers. src/visitors/cp_info.c reads the constant pool over the reader;
-- src/class_file_parser.c reads a whole class file into the tree of
-- include/jni2hook/utils/visitors/*.h, and src/class_file_writer.c writes the tree back over the
-- writer. src/visitors/code_attribute.c does the same for the payload of a Code attribute, which the
-- tree keeps as opaque bytes.
--
-- Files and code.
--   Base and its children: Boolean tests, lists over the native numbers, and the status that
--     functions return (include/jni2hook/utils/visitors/visitor.h).
--   ByteStream/Cursor, ByteStream/Buffer: src/byte_stream.c. A reader function takes the cursor to a
--     value and the cursor afterwards; an error is a `return` of the C function that called it. The
--     other files below ByteStream are the rules for sequences of reads and writes.
--   ConstantPool: src/visitors/cp_info.c (constant_pool_read) and the pool's part of
--     src/class_file_writer.c.
--   ConstantPool/Pool: the rest of src/visitors/cp_info.c (constant_pool_append, the lookups) and the
--     interning functions of src/visitors/class_file.c.
--   NodeList: src/visitors/attribute_info.c, src/visitors/member_info.c and the interface list of
--     src/visitors/class_file.c, as one generic array and its uses.
--   ClassFile: the tree, src/class_file_parser.c and src/class_file_writer.c.
--   CodeAttribute: src/visitors/code_attribute.c.
--   Instruction: src/visitors/instruction.c, with the opcode lengths of
--     include/jni2hook/utils/class_file_constant.h. Opcode has the kinds and the lengths, Node the
--     instructions and their offsets, Decode instruction_list_parse, Encode instruction_list_encode.
--     Layout is the format with padding, distances and ranges of its own; it shares with the code the
--     operand kinds of the opcodes and which of them may be wide. Numbers, Reading, Decoding, OperandBytes, Encoding,
--     Sizes and Offsets relate the code to it, and RoundTrip puts them together. Shrinking and Rounds
--     say what the readers leave of the code, so how many rounds the parser's loop needs.
--   TypeAnnotation: src/visitors/type_annotation.c. Collect has type_annotation_collect, with 33 levels
--     for the depths 0 to 32 that the code allows, Refs the references and type_annotation_flush.
--   CodeEditor: src/visitors/code_editor.c. Editor is the state, References the walk over all
--     references to bytecode offsets, of which map_all_references and the shifts are instances, Insert
--     code_editor_insert, Tables the line number and local variable tables, Load and Store
--     code_editor_load and code_editor_store. It uses Instruction, CodeAttribute, StackMapTable and TypeAnnotation.
--   StackMapTable: src/visitors/stack_map_table.c.
--   MethodLayout: src/class_layout.c.
--   ConstructorScan: src/visitors/constructor_init.c, descriptor_slots so far. Types has the
--     descriptors of the specification.
--   PatternScan: src/hook/bytecode_scan.c up to bytecode_pattern_find_in_class_file. Pattern is the code;
--     Compile, Denoted, Find and InClass say what it does.
--
-- How state is modelled. A byte is a number below 256. An owned array with its count is the list of
-- its elements. The allocator is a parameter `grants`: it says for each size whether a request of
-- that size succeeds, so every function is total and its out-of-memory path is a result. Structure
-- sizes are those of the 64-bit targets. Sizes in the writer wrap at 2 ^ 64, as `size_t` does; the
-- theorems are about outputs below 2 ^ 62 bytes, where nothing wraps and 64 doublings, the fuel of
-- the growing loop, reach every size. The constant pool's array doubles up to the largest u2, for
-- which 17 rounds are enough. An `i4` is its 32-bit pattern: a negative number is one from 2 ^ 31 up,
-- and a comparison of signed numbers moves both up by 2 ^ 31.
--
-- Bounds on loops. instruction_list_parse has a round for each byte and one more, since each round
-- takes a byte. instruction_list_recompute_offsets has as many rounds as the caller gives: the result
-- is `none` where they run out, and two are enough. The padding loop of the encoder is `none` where
-- its rounds run out: three are enough for a buffer in order, and no number is for one that has failed.
--
-- A function that can fail after it has changed something gives its status, `none` for CLASSFILE_OK,
-- together with what the data are then; an interning function gives its index or its status, together
-- with the pool as it is then. A C string is the list of the bytes in front of its zero.
--
-- Not modelled: null pointer arguments, freeing memory, a stack map frame whose kind is none of the
-- five that are named, and, so far, the rest of
-- constructor_init.c, class_transform.c, class_remap.c and the rest of hook/ and jni2hook.c, which drive a
-- JVM through JNI and JVMTI.
pub mod Base
pub mod ByteStream
pub mod ConstantPool
pub mod ClassFile
pub mod NodeList
pub mod Instruction
pub mod TypeAnnotation
pub mod CodeEditor
pub mod CodeAttribute
pub mod StackMapTable
pub mod PatternScan
pub mod MethodLayout
pub mod ConstructorScan
