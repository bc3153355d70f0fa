-- ===== src/Wire/EventLaws.antt =====
-- The codecs of the types of events in crates/cc-core/src/v1.rs are lawful.
use clockchain.Prelude.{ℕ, ◌^◌, ◌<◌, ◌≡◌, refl, some, arith, All}
use clockchain.Wire.{Hash, hash_wire}
use clockchain.Wire.Event.{
  SubjectKey, AssertedTime, Pin, Pins, ParentPins, DispositionKind, selected, merged, not_selected,
  Disposition, Kind, TargetKind, subject_key_wire, asserted_time_wire, pin_wire, pins_wire,
  parent_pins_wire, disposition_tag, disposition_variant, disposition_wire, kind_tag, kind_variant,
  kind_wire, target_tag, target_variant, target_kind_wire, hash_set, parent_pins_set,
  disposition_set, same_hash,
}
use clockchain.Wire.Laws.{Lawful, number-Lawful, IsAny, both-Lawful, via-Lawful}
use clockchain.Wire.Containers.{IsText, string_wire-Lawful, tags-Lawful}
use clockchain.Wire.Sets.{set-Lawful}

abbrev pub IsHash : Hash → Type 0
IsHash h = h < 256 ^ 32

pub hash_wire-Lawful : Lawful hash_wire IsHash
hash_wire-Lawful = number-Lawful 32

pub hash_set-Lawful : Lawful hash_set (All IsHash)
hash_set-Lawful = set-Lawful same_hash hash_wire-Lawful

abbrev pub IsSubjectKey : SubjectKey → Type 0
IsSubjectKey k = IsText k.kind × (IsText k.namespace × IsText k.value)

pub subject_key_wire-Lawful : Lawful subject_key_wire IsSubjectKey
unfolding subject_key_wire
subject_key_wire-Lawful =
    via-Lawful _ _ (λ b. refl) (λ a. refl)
      (both-Lawful string_wire-Lawful (both-Lawful string_wire-Lawful string_wire-Lawful))

abbrev pub IsAssertedTime : AssertedTime → Type 0
IsAssertedTime t = IsHash t.coordinate × IsText t.precision

pub asserted_time_wire-Lawful : Lawful asserted_time_wire IsAssertedTime
unfolding asserted_time_wire
asserted_time_wire-Lawful =
    via-Lawful _ _ (λ b. refl) (λ a. refl) (both-Lawful hash_wire-Lawful string_wire-Lawful)

abbrev pub IsPin : Pin → Type 0
IsPin p = IsHash p.subject × (IsHash p.basis × (IsHash p.revision × IsHash p.body))

pin_wire-Lawful : Lawful pin_wire IsPin
unfolding pin_wire
pin_wire-Lawful =
    via-Lawful _ _ (λ b. refl) (λ a. refl)
      (both-Lawful hash_wire-Lawful
        (both-Lawful hash_wire-Lawful (both-Lawful hash_wire-Lawful hash_wire-Lawful)))

abbrev pub IsPins : Pins → Type 0
IsPins p = IsPin p.source × IsPin p.target

pub pins_wire-Lawful : Lawful pins_wire IsPins
unfolding pins_wire
pins_wire-Lawful =
    via-Lawful _ _ (λ b. refl) (λ a. refl) (both-Lawful pin_wire-Lawful pin_wire-Lawful)

abbrev pub IsParentPins : ParentPins → Type 0
IsParentPins p = IsHash p.parent × IsPins p.pins

parent_pins_wire-Lawful : Lawful parent_pins_wire IsParentPins
unfolding parent_pins_wire
parent_pins_wire-Lawful =
    via-Lawful _ _ (λ b. refl) (λ a. refl) (both-Lawful hash_wire-Lawful pins_wire-Lawful)

pub parent_pins_set-Lawful : Lawful parent_pins_set (All IsParentPins)
parent_pins_set-Lawful = set-Lawful _ parent_pins_wire-Lawful

disposition_variant-tag : (v : DispositionKind) → disposition_variant (disposition_tag v) ≡ some v
unfolding disposition_tag disposition_variant
disposition_variant-tag selected = refl
disposition_variant-tag merged = refl
disposition_variant-tag not_selected = refl

disposition_tag-lt : (v : DispositionKind) → disposition_tag v < 65536
unfolding disposition_tag
disposition_tag-lt selected = omega arith
disposition_tag-lt merged = omega arith
disposition_tag-lt not_selected = omega arith

disposition_variant-some :
    (t : ℕ) (v : DispositionKind) → disposition_variant t ≡ some v → disposition_tag v ≡ t
unfolding disposition_tag disposition_variant
disposition_variant-some t v h = ground arith

abbrev pub IsDisposition : Disposition → Type 0
IsDisposition d = IsHash d.parent × (IsAny d.action × IsText d.rationale)

pub disposition_wire-Lawful : Lawful disposition_wire IsDisposition
unfolding disposition_wire
disposition_wire-Lawful =
    via-Lawful _ _ (λ b. refl) (λ a. refl)
      (both-Lawful hash_wire-Lawful (
        both-Lawful
          (tags-Lawful disposition_tag disposition_variant disposition_variant-tag
            disposition_tag-lt disposition_variant-some)
          string_wire-Lawful))

pub disposition_set-Lawful : Lawful disposition_set (All IsDisposition)
disposition_set-Lawful = set-Lawful _ disposition_wire-Lawful

kind_variant-tag : (v : Kind) → kind_variant (kind_tag v) ≡ some v
unfolding kind_tag kind_variant
kind_variant-tag Kind.genesis = refl
kind_variant-tag _ = refl

kind_tag-lt : (v : Kind) → kind_tag v < 65536
unfolding kind_tag
kind_tag-lt Kind.genesis = omega arith
kind_tag-lt _ = omega arith

kind_variant-some : (t : ℕ) (v : Kind) → kind_variant t ≡ some v → kind_tag v ≡ t
unfolding kind_tag kind_variant
kind_variant-some t v h = ground arith

pub kind_wire-Lawful : Lawful kind_wire IsAny
unfolding kind_wire
kind_wire-Lawful = tags-Lawful kind_tag kind_variant kind_variant-tag kind_tag-lt kind_variant-some

target_variant-tag : (v : TargetKind) → target_variant (target_tag v) ≡ some v
unfolding target_tag target_variant
target_variant-tag TargetKind.event = refl
target_variant-tag TargetKind.revision = refl

target_tag-lt : (v : TargetKind) → target_tag v < 65536
unfolding target_tag
target_tag-lt TargetKind.event = omega arith
target_tag-lt TargetKind.revision = omega arith

target_variant-some : (t : ℕ) (v : TargetKind) → target_variant t ≡ some v → target_tag v ≡ t
unfolding target_tag target_variant
target_variant-some t v h = ground arith

pub target_kind_wire-Lawful : Lawful target_kind_wire IsAny
unfolding target_kind_wire
target_kind_wire-Lawful =
    tags-Lawful target_tag target_variant target_variant-tag target_tag-lt target_variant-some
