-- ===== src/Server/Mapping/RoundTrip.antt =====
-- Reading back the message that was written for a record (internal/server/mapping.go).
use mathlib.Core.Path.{subst}
use our_ne_zt_core.Common.{
  String, false, Option, none, some, ◌≡◌, refl, inl, inr, Bool-cases, Option-cases, ◌<◌, ◌^◌, arith,
}
use our_ne_zt_core.Common.Text.{is_empty, trim_space, trim_left, trim_right}
use our_ne_zt_core.Common.Trim.{trim_space_idem}
use our_ne_zt_core.Common.Int32.{to_int32-to_int}
use our_ne_zt_core.Domain.{Time, PersonProfile}
use our_ne_zt_core.Errors.{ok, first-ok, ok_inj}
use our_ne_zt_core.Server.Messages.{PersonMessage}
use our_ne_zt_core.Server.Mapping.{
  Dates, parse_optional_date, format_date, person_from_proto, person_to_proto,
}

-- A date whose text, without spaces around it, reads back as the date.
pub record IsPrintable (dates : Dates) (t : Time) : Type 0 where
  pub trimmed : trim_space (dates.format t) ≡ dates.format t
  pub shown : is_empty (dates.format t) ≡ false
  pub read : dates.parse (dates.format t) ≡ some t

-- What package `time` documents: every date that `Parse` reads, `Format` writes so that it reads back.
pub record IsDates (dates : Dates) : Type 0 where
  pub printable : (s : String) (t : Time) → dates.parse s ≡ some t → IsPrintable dates t

module _ (dates : Dates) (laws : IsDates dates) where
  parse-format-some :
      (t : Time) → IsPrintable dates t → parse_optional_date dates (dates.format t) ≡ ok (some t)
  unfolding parse_optional_date
  parse-format-some t p = simp (p.trimmed, p.shown, p.read) refl

  parsed :
      (s : String) (t : Time)
      → parse_optional_date dates s ≡ ok (some t)
      → dates.parse (trim_space s) ≡ some t
  unfolding parse_optional_date
  parsed s t h = elim (Bool-cases (is_empty (trim_space s))) [
    | inl e ↦ ground (arith, h, e)
    | inr e ↦ elim (Option-cases (dates.parse (trim_space s))) [
      | inl none_read ↦ ground (arith, h, e, none_read)
      | inr (u, some_read) ↦ ground (arith, h, e, some_read)
    ]
  ]

  -- A date that was read is written so that it reads back.
  pub parse-format :
      (s : String) (d : Option Time)
      → parse_optional_date dates s ≡ ok d
      → parse_optional_date dates (format_date dates d) ≡ ok d
  unfolding format_date parse_optional_date trim_space trim_left trim_right
  parse-format s none h = refl
  parse-format s (some t) h = parse-format-some t (laws.printable (trim_space s) t (parsed s t h))

  -- Where dates read back as package `time` documents: if a message, whose age is an `int32`, reads
  -- as a profile, then the message that is written for this profile reads as the same profile.
  pub person_from_proto-person_to_proto :
      (m : PersonMessage) (p : PersonProfile)
      → m.age < 2 ^ 32
      → person_from_proto dates (some m) ≡ ok p
      → person_from_proto dates (some (person_to_proto dates p)) ≡ ok p
  unfolding person_from_proto person_to_proto
  person_from_proto-person_to_proto m p a h =
      let (start, es, h1) = first-ok _ _ h in
      let (graduation, eg, h2) = first-ok _ _ h1 in
      let (ord, eo, h3) = first-ok _ _ h2 in
      subst (λ q. person_from_proto dates (some (person_to_proto dates q)) ≡ ok q) (ok_inj h3)
        (simp
          (
            trim_space_idem,
            to_int32-to_int m.age a,
            parse-format _ _ es,
            parse-format _ _ eg,
            parse-format _ _ eo,
          )
          refl)
