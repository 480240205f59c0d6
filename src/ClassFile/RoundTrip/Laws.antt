-- ===== src/ClassFile/RoundTrip/Laws.antt =====
-- src/class_file_parser.c against src/class_file_writer.c: what is written is read back, and what
-- is read is written back byte by byte.
use jni2hook.Base.{
  ℕ, ◌<◌, ◌≡◌, sym, subst, List, ◌∷◌, ◌++◌, length, All, ok, err, ClassfileStatus, ◌⊎◌, Bool,
}
use jni2hook.ByteStream.Cursor.{IsByte}
use jni2hook.ByteStream.Writes.{Plenty, max_size}
use jni2hook.ByteStream.Whole.{run_whole-Reads, run_whole-trailing, run_whole-Sound}
use jni2hook.ClassFile.Tree.{ClassFile}
use jni2hook.ClassFile.Parser.{read_class, classfile_parse}
use jni2hook.ClassFile.Writer.{classfile_serialize}
use jni2hook.ClassFile.RoundTrip.Layout.{class_bytes, IsClassFile}
use jni2hook.ClassFile.RoundTrip.Reading.{Reads-class}
use jni2hook.ClassFile.RoundTrip.Consumed.{Sound-class, EndsFine-class}
use jni2hook.ClassFile.RoundTrip.Writing.{serialize_outcome}

-- The tree with the pool's array cut to what it holds, as the parser allocates it.
abbrev pub fitted : ClassFile → ClassFile
fitted cf = record cf {
  constant_pool = record {
    entries = cf.constant_pool.entries;
    capacity = length cf.constant_pool.entries;
  };
}

parse-class_bytes :
    (grants : ℕ → Bool) (cf : ClassFile)
    → Plenty grants
    → IsClassFile cf
    → classfile_parse grants (class_bytes cf) ≡ ok (fitted cf)
unfolding classfile_parse
parse-class_bytes grants cf plenty h =
    run_whole-Reads (read_class grants) (Reads-class grants plenty cf h)

parse_trailing :
    (grants : ℕ → Bool) (cf : ClassFile)
    → Plenty grants
    → IsClassFile cf
    → (x : ℕ) (more : List ℕ)
    → classfile_parse grants (class_bytes cf ++ (x ∷ more)) ≡ err ClassfileStatus.trailing_bytes
unfolding classfile_parse
parse_trailing grants cf plenty h x more =
    run_whole-trailing (read_class grants) x more (Reads-class grants plenty cf h)

parse_sound :
    (grants : ℕ → Bool) (bytes : List ℕ) (cf : ClassFile)
    → All IsByte bytes
    → classfile_parse grants bytes ≡ ok cf
    → IsClassFile cf
      × (class_bytes cf ≡ bytes)
      × (cf.constant_pool.capacity ≡ length cf.constant_pool.entries)
unfolding classfile_parse
parse_sound grants bytes cf valid h =
    run_whole-Sound (read_class grants) (Sound-class grants) (EndsFine-class grants) bytes cf valid
      h

-- With an allocator that grants every request, a tree that the class file format can hold, of less
-- than 2 ^ 62 bytes, is serialized, and the parser reads from the result the same tree, the capacity
-- of the pool's array apart.
pub parse-serialize :
    (grants : ℕ → Bool) (cf : ClassFile)
    → Plenty grants
    → IsClassFile cf
    → length (class_bytes cf) < max_size
    → (bytes : List ℕ) × (classfile_serialize grants cf ≡ ok bytes)
      × (classfile_parse grants bytes ≡ ok (fitted cf))
parse-serialize grants cf plenty h small = (
  class_bytes cf,
  (serialize_outcome grants cf h small).1 plenty,
  parse-class_bytes grants cf plenty h,
)

-- Whatever the allocator did while parsing, and with one that grants every request while writing:
-- an input of less than 2 ^ 62 bytes that the parser accepts gives a tree that keeps to the format,
-- and that is serialized byte for byte as the input was.
pub serialize-parse :
    (grants grants' : ℕ → Bool) (bytes : List ℕ) (cf : ClassFile)
    → All IsByte bytes
    → length bytes < max_size
    → Plenty grants'
    → classfile_parse grants bytes ≡ ok cf
    → IsClassFile cf × (classfile_serialize grants' cf ≡ ok bytes)
serialize-parse grants grants' bytes cf valid small plenty h =
    let (fit, same, tight) = parse_sound grants bytes cf valid h in
    let fits = subst (λ xs. length xs < max_size) (sym same) small in
    (
      fit,
      subst (λ xs. classfile_serialize grants' cf ≡ ok xs) same
          ((serialize_outcome grants' cf fit fits).1 plenty),
    )

-- Whatever the allocator does while writing: a tree that the format can hold, of less than 2 ^ 62
-- bytes, is either serialized to exactly the bytes of the format or refused for want of memory.
-- No cut-off output is returned.
pub serialize_never_short :
    (grants : ℕ → Bool) (cf : ClassFile)
    → IsClassFile cf
    → length (class_bytes cf) < max_size
    → (classfile_serialize grants cf ≡ ok (class_bytes cf))
      ⊎ (classfile_serialize grants cf ≡ err ClassfileStatus.out_of_memory)
serialize_never_short grants cf h small = (serialize_outcome grants cf h small).0

-- With an allocator that grants every request: bytes behind a class file that is accepted are
-- refused as trailing.
pub parse-append :
    (grants : ℕ → Bool) (bytes : List ℕ) (cf : ClassFile) (x : ℕ) (more : List ℕ)
    → Plenty grants
    → All IsByte bytes
    → classfile_parse grants bytes ≡ ok cf
    → classfile_parse grants (bytes ++ (x ∷ more)) ≡ err ClassfileStatus.trailing_bytes
parse-append grants bytes cf x more plenty valid h =
    let (fit, same, tight) = parse_sound grants bytes cf valid h in
    subst (λ xs. classfile_parse grants (xs ++ (x ∷ more)) ≡ err ClassfileStatus.trailing_bytes)
      same (parse_trailing grants cf plenty fit x more)
