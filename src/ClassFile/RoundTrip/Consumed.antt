-- ===== src/ClassFile/RoundTrip/Consumed.antt =====
-- src/class_file_parser.c on any bytes: a tree that is read has the bytes that were consumed.
use jni2hook.Base.{
  ℕ, ◌≡◌, sym, ap, ◌∙◌, Bool, List, ◌++◌, append-nil, append_assoc, length, All, arith, ◌==◌,
  eq_of_test,
}
use jni2hook.ByteStream.Cursor.{byte_cursor_u2, copy_size}
use jni2hook.ByteStream.Reads.{be2, be4}
use jni2hook.ByteStream.Sound.{
  Sound, Sound-bind, Sound-weaken, Sound-pure, Sound-fail, Sound-check, Sound-require, Sound-if,
  Sound-u2, Sound-u4, Sound-bytes, Sound-allocate, Sound-reserve,
}
use jni2hook.ByteStream.Ends.{
  EndsFine, EndsFine-bind, EndsFine-then, KeepsFine-bind, KeepsFine-EndsFine, KeepsFine-pure,
  EndsFine-check, KeepsFine-allocate, KeepsFine-reserve, EndsFine-bytes, KeepsFine-many,
}
use jni2hook.ByteStream.Many.{many_bytes, Sound-many}
use jni2hook.ConstantPool.Entry.{IsU2}
use jni2hook.ConstantPool.RoundTrip.Reading.{Sound-pool}
use jni2hook.ClassFile.Parser.{
  class_magic, refuse_magic, read_magic, read_attribute, read_attributes, read_member, read_members,
  read_interfaces, read_class,
}
use jni2hook.ClassFile.RoundTrip.Layout.{
  attribute_bytes, attributes_bytes, member_bytes, members_bytes, class_bytes, IsAttribute,
  IsAttributes, IsMember, IsMembers, IsClassFile,
}

Sound-refuse : {R : Unit {0} → List ℕ → Type 0} → Sound refuse_magic R
unfolding refuse_magic
Sound-refuse = Sound-bind _ _ (Sound-check _) λ _ bs. Sound-fail _

Sound-magic : Sound read_magic (λ u bytes. bytes ≡ be4 class_magic)
unfolding read_magic
Sound-magic = Sound-bind _ _ Sound-u4 λ magic bs.
    Sound-if (magic == class_magic)
      (λ e.
        Sound-pure tt
          λ (fits, same). append-nil bs ∙ same ∙ ap be4 (eq_of_test magic class_magic e))
      Sound-refuse

module _ (grants : ℕ → Bool) where
  pub Sound-read_attribute :
      Sound (read_attribute grants) (λ a bytes. IsAttribute a × (attribute_bytes a ≡ bytes))
  unfolding read_attribute
  Sound-read_attribute = Sound-bind _ _ Sound-u2 λ name bs. Sound-bind _ _ Sound-u4 λ n cs.
      Sound-bind _ _ (Sound-bytes n) λ payload ds.
        Sound-bind _ _ (Sound-allocate grants (copy_size n)) λ _ es.
          Sound-pure _ λ none₁ (counted, same₃, valid) (sized, same₂) (fits, same₁). (
            (fits, rw counted sized, valid),
            simp (none₁, same₃, same₂, same₁, counted, append-nil),
          )

  pub Sound-read_attributes :
      Sound (read_attributes grants) (λ l bytes. IsAttributes l × (attributes_bytes l ≡ bytes))
  unfolding read_attributes
  Sound-read_attributes = Sound-bind _ _ Sound-u2 λ count bs. Sound-bind _ _ (Sound-check _) λ _ cs.
      Sound-bind _ _ (Sound-reserve grants count 16) λ _ ds.
        Sound-weaken
          (Sound-many attribute_bytes IsAttribute (read_attribute grants) Sound-read_attribute
            count)
          λ l es (counted, fit, same₂) none₂ none₁ (fits, same₁).
            ((rw counted fits, fit), simp (none₁, none₂, same₂, same₁, counted))

  Sound-read_member : Sound (read_member grants) (λ m bytes. IsMember m × (member_bytes m ≡ bytes))
  unfolding read_member
  Sound-read_member = Sound-bind _ _ Sound-u2 λ flags bs. Sound-bind _ _ Sound-u2 λ name cs.
      Sound-bind _ _ Sound-u2 λ descriptor ds. Sound-bind _ _ (Sound-check _) λ _ es.
        Sound-bind _ _ Sound-read_attributes λ attributes fs.
          Sound-pure _ λ (fit, same₄) none (fits₃, same₃) (fits₂, same₂) (fits₁, same₁).
            ((fits₁, fits₂, fits₃, fit), simp (none, ← same₄, same₃, same₂, same₁, append-nil))

  Sound-read_members :
      Sound (read_members grants) (λ l bytes. IsMembers l × (members_bytes l ≡ bytes))
  unfolding read_members
  Sound-read_members = Sound-bind _ _ Sound-u2 λ count bs. Sound-bind _ _ (Sound-check _) λ _ cs.
      Sound-bind _ _ (Sound-reserve grants count 24) λ _ ds.
        Sound-weaken (Sound-many member_bytes IsMember (read_member grants) Sound-read_member count)
          λ l es (counted, fit, same₂) none₂ none₁ (fits, same₁).
            ((rw counted fits, fit), simp (none₁, none₂, same₂, same₁, counted))

  Sound-interfaces :
      Sound
        (read_interfaces grants)
        (λ l bytes. IsU2 (length l) × All IsU2 l × (be2 (length l) ++ many_bytes be2 l ≡ bytes))
  unfolding read_interfaces
  Sound-interfaces = Sound-bind _ _ Sound-u2 λ count bs. Sound-bind _ _ (Sound-check _) λ _ cs.
      Sound-bind _ _ (Sound-reserve grants count 2) λ _ ds.
        Sound-bind _ _
          (Sound-many be2 IsU2 byte_cursor_u2
            (Sound-weaken Sound-u2 λ v es (fits, same). (fits, sym same)) count)
          λ l es. Sound-bind _ _ (Sound-check _) λ _ fs.
            Sound-pure l λ none₃ (counted, fit, same₂) none₂ none₁ (fits, same₁).
              (rw counted fits, fit, simp (none₁, none₂, none₃, same₂, same₁, counted, append-nil))

  pub Sound-class : Sound (read_class grants) (λ cf bytes.
      IsClassFile cf
      × (class_bytes cf ≡ bytes)
      × (cf.constant_pool.capacity ≡ length cf.constant_pool.entries))
  unfolding read_class
  Sound-class = Sound-bind _ _ (Sound-allocate grants 96) λ _ b₀. Sound-bind _ _ Sound-magic λ _ b₁.
      Sound-bind _ _ Sound-u2 λ minor b₂. Sound-bind _ _ Sound-u2 λ major b₃.
        Sound-bind _ _ (Sound-check _) λ _ b₄. Sound-bind _ _ (Sound-require _ _) λ _ b₅.
          Sound-bind _ _ (Sound-pool grants) λ pool b₆. Sound-bind _ _ Sound-u2 λ flags b₇.
            Sound-bind _ _ Sound-u2 λ this b₈. Sound-bind _ _ Sound-u2 λ super b₉.
              Sound-bind _ _ (Sound-check _) λ _ c₀.
                Sound-bind _ _ Sound-interfaces λ interfaces c₁.
                  Sound-bind _ _ Sound-read_members λ fields c₂.
                    Sound-bind _ _ Sound-read_members λ methods c₃.
                      Sound-bind _ _ Sound-read_attributes λ attributes c₄.
                        Sound-pure _
                          λ (fit₄, s₄) (fit₃, s₃) (fit₂, s₂) (counted, fit₁, s₁) s₀ (f₉, r₉)
                              (f₈, r₈) (f₇, r₇) (fit, r₆, tight) (young, r₅) r₄ (f₃, r₃) (f₂, r₂) r₁
                              r₀.
                            (
                              record {
                                minor = f₂;
                                major = f₃;
                                supported = ground arith;
                                pool = fit;
                                flags = f₇;
                                this = f₈;
                                super = f₉;
                                interface_count = counted;
                                interfaces = fit₁;
                                fields = fit₂;
                                methods = fit₃;
                                attributes = fit₄;
                              },
                              simp (
                                r₀,
                                r₁,
                                r₂,
                                r₃,
                                r₄,
                                r₅,
                                ← r₆,
                                r₇,
                                r₈,
                                r₉,
                                s₀,
                                ← s₁,
                                ← s₂,
                                ← s₃,
                                ← s₄,
                                append-nil,
                                append_assoc,
                              ),
                              tight,
                            )

module _ (grants : ℕ → Bool) where
  pub EndsFine-attribute : EndsFine (read_attribute grants)
  unfolding read_attribute
  EndsFine-attribute = EndsFine-bind _ _ λ name. EndsFine-bind _ _ λ n.
      EndsFine-then _ _ (EndsFine-bytes n) λ payload.
        KeepsFine-bind _ _ (KeepsFine-allocate grants (copy_size n)) λ _. KeepsFine-pure _

  pub EndsFine-attributes : EndsFine (read_attributes grants)
  unfolding read_attributes
  EndsFine-attributes = EndsFine-bind _ _ λ count. EndsFine-then _ _ (EndsFine-check _) λ _.
      KeepsFine-bind _ _ (KeepsFine-reserve grants count 16)
        λ _. KeepsFine-many count (read_attribute grants) (KeepsFine-EndsFine EndsFine-attribute)

  pub EndsFine-class : EndsFine (read_class grants)
  unfolding read_class
  EndsFine-class = EndsFine-bind _ _ λ _. EndsFine-bind _ _ λ _. EndsFine-bind _ _ λ minor.
      EndsFine-bind _ _ λ major. EndsFine-bind _ _ λ _. EndsFine-bind _ _ λ _.
        EndsFine-bind _ _ λ pool. EndsFine-bind _ _ λ flags. EndsFine-bind _ _ λ this.
          EndsFine-bind _ _ λ super. EndsFine-bind _ _ λ _. EndsFine-bind _ _ λ interfaces.
            EndsFine-bind _ _ λ fields.
              EndsFine-bind _ _
                λ methods. EndsFine-then _ _ EndsFine-attributes λ attributes. KeepsFine-pure _
