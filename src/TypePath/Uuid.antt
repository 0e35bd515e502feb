-- ===== src/TypePath/Uuid.antt =====
-- The macros never choose the UUID: the test of its column comes after the one for byte strings,
-- which asks for the same.
use sqlx_turso.Base.{
  if_elim, Result, ok, ◌≡◌, refl, Bool, true, false, ◌||◌, Option, none, some, arith,
}
use sqlx_turso.TypeInfo.{TursoTypeInfo}
use sqlx_turso.Value.Types.{bytes_type, uuid_type, type_info, compatible}
use sqlx_turso.TypePath.{
  DateTimeCrate, inferred, chrono_crate, time_crate, PreferredCrates, Features, TypeCheckingError,
  TypePath, path_of, is_announced, chrono_type_path, time_type_path, wanted, or_next,
  datetime_type_path, other_type_path, is_decimal, type_path_for_id,
}

abbrev is_uuid : Result TypePath TypeCheckingError → Bool
is_uuid (ok (path_of uuid_type)) = true
is_uuid _ = false

abbrev is_uuid_path : Option TypePath → Bool
is_uuid_path (some (path_of uuid_type)) = true
is_uuid_path _ = false

abbrev is_uuid_choice : Option (Result TypePath TypeCheckingError) → Bool
is_uuid_choice (some r) = is_uuid r
is_uuid_choice none = false

chrono_lem : (fs : Features) (t : TursoTypeInfo) → is_uuid_path (chrono_type_path fs t) ≡ false
unfolding chrono_type_path
chrono_lem fs t = ground arith

time_lem : (fs : Features) (t : TursoTypeInfo) → is_uuid_path (time_type_path fs t) ≡ false
unfolding time_type_path
time_lem fs t = ground arith

wanted_lem : (p : Option TypePath) → is_uuid_path p ≡ false → is_uuid_choice (wanted p) ≡ false
wanted_lem p h = ground arith

or_next_lem :
    (p q : Option TypePath)
    → is_uuid_path p ≡ false
    → is_uuid_path q ≡ false
    → is_uuid_choice (or_next p q) ≡ false
or_next_lem p q h k = ground arith

datetime_lem :
    (fs : Features) (t : TursoTypeInfo) (c : DateTimeCrate)
    → is_uuid_choice (datetime_type_path fs t c) ≡ false
unfolding datetime_type_path
datetime_lem fs t time_crate = wanted_lem (time_type_path fs t) (time_lem fs t)
datetime_lem fs t chrono_crate = wanted_lem (chrono_type_path fs t) (chrono_lem fs t)
datetime_lem fs t inferred =
    or_next_lem (time_type_path fs t) (chrono_type_path fs t) (time_lem fs t) (chrono_lem fs t)

-- The two tests ask for the same.
same_test :
    (t : TursoTypeInfo)
    → (is_announced bytes_type t || compatible bytes_type t)
      ≡ (is_announced uuid_type t || compatible uuid_type t)
unfolding type_info compatible
same_test t = refl

other_lem : (fs : Features) (t : TursoTypeInfo) → is_uuid (other_type_path fs t) ≡ false
unfolding other_type_path
other_lem fs t = let h = same_test t in ground arith

choice_lem :
    (p : Option (Result TypePath TypeCheckingError)) (r : Result TypePath TypeCheckingError)
    → is_uuid_choice p ≡ false
    → is_uuid r ≡ false
    → is_uuid (elim p [ some path ↦ path | none ↦ r ]) ≡ false
choice_lem none r h k = k
choice_lem (some path) r h k = h

-- With every set of features and every column, the macros do not choose the UUID.
type_path_for_id-is_uuid :
    (fs : Features) (t : TursoTypeInfo) (preferred : PreferredCrates)
    → is_uuid (type_path_for_id fs t preferred) ≡ false
unfolding type_path_for_id
type_path_for_id-is_uuid fs t preferred =
    if_elim (λ r. is_uuid r ≡ false) (is_decimal preferred.numeric) (λ _. refl)
      (λ _.
        choice_lem (datetime_type_path fs t preferred.date_time) (other_type_path fs t)
          (datetime_lem fs t preferred.date_time) (other_lem fs t))
