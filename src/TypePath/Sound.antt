-- ===== src/TypePath/Sound.antt =====
-- The types that the macros choose can be read from the columns that they are chosen for.
use sqlx_turso.Base.{
  Bool-cases, if_elim, Result, ok, err, ◌≡◌, refl, ap, subst, inl, inr, Bool, true, not, ◌&&◌, ◌||◌,
  Option, none, some, false, arith,
}
use sqlx_turso.Text.Laws.{text_eq_iff}
use sqlx_turso.TypeInfo.{TursoTypeInfo, info_eq, has_date_affinity, has_datetime_affinity}
use sqlx_turso.Value.Types.{
  RustType, integer_type, bool_type, float_type, str_type, bytes_type, uuid_type,
  chrono_naive_datetime, chrono_naive_date, time_primitive_datetime, time_date, type_info,
  compatible, compatible-type_info,
}
use sqlx_turso.TypePath.{
  DateTimeCrate, inferred, chrono_crate, time_crate, PreferredCrates, Features, TypeCheckingError,
  TypePath, named_type, is_announced, chrono_type_path, time_type_path, wanted, or_next,
  datetime_type_path, other_type_path, is_decimal, type_path_for_id, debug_type,
}

-- A column of the type that a Rust type is announced as.
announced-compatible :
    (r : RustType) (t : TursoTypeInfo) → is_announced r t ≡ true → compatible r t ≡ true
unfolding info_eq
announced-compatible r t h =
    subst (λ i. compatible r i ≡ true)
      (ap (λ n. record { name = n }) ((text_eq_iff (type_info r).name t.name).0 h))
      (compatible-type_info r)

-- What the path names can be read from the column.
abbrev Readable : TursoTypeInfo → TypePath → Type 0
Readable t p = compatible (named_type p) t ≡ true

abbrev ReadableOption : TursoTypeInfo → Option TypePath → Type 0
ReadableOption t none = Unit
ReadableOption t (some p) = Readable t p

abbrev pub ReadableResult : TursoTypeInfo → Result TypePath TypeCheckingError → Type 0
ReadableResult t (err _) = Unit
ReadableResult t (ok p) = Readable t p

abbrev ReadableBoth : TursoTypeInfo → Option (Result TypePath TypeCheckingError) → Type 0
ReadableBoth t none = Unit
ReadableBoth t (some r) = ReadableResult t r

-- A test of a chain: announced as the type or compatible with it.
either-compatible :
    (r : RustType) (t : TursoTypeInfo) (b : Bool)
    → (b ≡ true → compatible r t ≡ true)
    → (is_announced r t || b) ≡ true
    → compatible r t ≡ true
either-compatible r t b k h = elim (Bool-cases (is_announced r t)) [
  | inl e ↦ announced-compatible r t e
  | inr e ↦ k (rw e at h)
]

own-compatible :
    (r : RustType) (t : TursoTypeInfo)
    → (is_announced r t || compatible r t) ≡ true
    → compatible r t ≡ true
own-compatible r t h = either-compatible r t (compatible r t) (λ e. e) h

chrono_date_lem :
    (t : TursoTypeInfo) → has_date_affinity t ≡ true → compatible chrono_naive_date t ≡ true
unfolding compatible
chrono_date_lem t h = rw h refl

chrono_datetime_lem :
    (t : TursoTypeInfo) → has_datetime_affinity t ≡ true → compatible chrono_naive_datetime t ≡ true
unfolding compatible
chrono_datetime_lem t h = rw h refl

time_date_lem : (t : TursoTypeInfo) → has_date_affinity t ≡ true → compatible time_date t ≡ true
unfolding compatible
time_date_lem t h = rw h refl

time_datetime_lem :
    (t : TursoTypeInfo)
    → has_datetime_affinity t ≡ true
    → compatible time_primitive_datetime t ≡ true
unfolding compatible
time_datetime_lem t h = rw h refl

chrono-Readable : (fs : Features) (t : TursoTypeInfo) → ReadableOption t (chrono_type_path fs t)
unfolding chrono_type_path
chrono-Readable fs t =
    if_elim (ReadableOption t) (not fs.chrono) (λ _. tt)
      (λ _.
        if_elim (ReadableOption t) (is_announced chrono_naive_date t || has_date_affinity t)
          (λ h. either-compatible chrono_naive_date t (has_date_affinity t) (chrono_date_lem t) h)
          (λ _.
            if_elim (ReadableOption t)
              (is_announced chrono_naive_datetime t || has_datetime_affinity t)
              (λ h.
                either-compatible chrono_naive_datetime t (has_datetime_affinity t)
                  (chrono_datetime_lem t) h)
              (λ _. tt)))

time-Readable : (fs : Features) (t : TursoTypeInfo) → ReadableOption t (time_type_path fs t)
unfolding time_type_path
time-Readable fs t =
    if_elim (ReadableOption t) (not fs.time) (λ _. tt)
      (λ _.
        if_elim (ReadableOption t) (is_announced time_date t || has_date_affinity t)
          (λ h. either-compatible time_date t (has_date_affinity t) (time_date_lem t) h)
          (λ _.
            if_elim (ReadableOption t)
              (is_announced time_primitive_datetime t || has_datetime_affinity t)
              (λ h.
                either-compatible time_primitive_datetime t (has_datetime_affinity t)
                  (time_datetime_lem t) h)
              (λ _. tt)))

wanted-Readable :
    (t : TursoTypeInfo) (p : Option TypePath) → ReadableOption t p → ReadableBoth t (wanted p)
wanted-Readable t none h = tt
wanted-Readable t (some p) h = h

or_next-Readable :
    (t : TursoTypeInfo) (p q : Option TypePath)
    → ReadableOption t p
    → ReadableOption t q
    → ReadableBoth t (or_next p q)
or_next-Readable t none none h k = tt
or_next-Readable t none (some q) h k = k
or_next-Readable t (some p) q h k = h

datetime-Readable :
    (fs : Features) (t : TursoTypeInfo) (c : DateTimeCrate)
    → ReadableBoth t (datetime_type_path fs t c)
unfolding datetime_type_path
datetime-Readable fs t time_crate = wanted-Readable t (time_type_path fs t) (time-Readable fs t)
datetime-Readable fs t chrono_crate =
    wanted-Readable t (chrono_type_path fs t) (chrono-Readable fs t)
datetime-Readable fs t inferred =
    or_next-Readable t (time_type_path fs t) (chrono_type_path fs t) (time-Readable fs t)
      (chrono-Readable fs t)

and_right : (a b : Bool) → (a && b) ≡ true → b ≡ true
and_right a b h = ground arith

other-Readable : (fs : Features) (t : TursoTypeInfo) → ReadableResult t (other_type_path fs t)
unfolding other_type_path
other-Readable fs t =
    if_elim (ReadableResult t) (is_announced bool_type t) (announced-compatible bool_type t) (λ _.
      if_elim (ReadableResult t) (is_announced integer_type t) (announced-compatible integer_type t)
        (λ _.
          if_elim (ReadableResult t) (is_announced integer_type t || compatible integer_type t)
            (own-compatible integer_type t)
            (λ _.
              if_elim (ReadableResult t) (is_announced float_type t || compatible float_type t)
                (own-compatible float_type t)
                (λ _.
                  if_elim (ReadableResult t) (is_announced str_type t || compatible str_type t)
                    (own-compatible str_type t)
                    (λ _.
                      if_elim (ReadableResult t)
                        (is_announced bytes_type t || compatible bytes_type t)
                        (own-compatible bytes_type t)
                        (λ _.
                          if_elim (ReadableResult t)
                            (fs.uuid && (is_announced uuid_type t || compatible uuid_type t))
                            (λ h. own-compatible uuid_type t (
                              and_right fs.uuid (is_announced uuid_type t || compatible uuid_type t)
                                h))
                            (λ _. tt)))))))

-- The type path that the macros choose for a column, if they choose any, names a type that can be
-- read from the column: `compatible` accepts the column's type for it. So it is with every set of
-- features and every preferred crate.
pub type_path_for_id-Readable :
    (fs : Features) (t : TursoTypeInfo) (preferred : PreferredCrates)
    → ReadableResult t (type_path_for_id fs t preferred)
unfolding type_path_for_id
type_path_for_id-Readable fs t preferred =
    if_elim (ReadableResult t) (is_decimal preferred.numeric) (λ _. tt)
      (λ _.
        chosen (datetime_type_path fs t preferred.date_time)
          (datetime-Readable fs t preferred.date_time))
  where
    chosen :
        (p : Option (Result TypePath TypeCheckingError))
        → ReadableBoth t p
        → ReadableResult t (elim p [ some path ↦ path | none ↦ other_type_path fs t ])
    chosen none h = other-Readable fs t
    chosen (some r) h = h

-- The type printed as can be read from the column, or nothing that every build has can.
abbrev IsPrinted : TursoTypeInfo → Option RustType → Type 0
IsPrinted t none =
    (compatible bytes_type t || compatible integer_type t || compatible float_type t) ≡ false
IsPrinted t (some r) = compatible r t ≡ true

-- A value is only ever printed as a type that its column is compatible with, and it is printed
-- without a type only if its column is compatible with none of the types that every build has.
debug_type_lem : (fs : Features) (t : TursoTypeInfo) → IsPrinted t (debug_type fs t)
unfolding debug_type
debug_type_lem fs t = ground arith
