-- ===== src/Options/Encryption.antt =====
-- What keys `TursoEncryptionOptions::new` takes.
use sqlx_turso.Base.{length, is_empty, ok, ◌%◌, ◌≡◌, ◌↔◌, true, false, arith}
use sqlx_turso.Text.{Text}
use sqlx_turso.Options.Settings.{TursoEncryptionOptions, all_hexdigits, new_encryption}

-- `TursoEncryptionOptions::new` gives exactly the cipher and the key that it was given, and gives
-- them exactly if neither is empty and the key is an even number of hexadecimal digits.
new_encryption_iff :
    (cipher hexkey : Text) (e : TursoEncryptionOptions)
    → (new_encryption cipher hexkey ≡ ok e) ↔ (
        (is_empty cipher ≡ false)
        × (is_empty hexkey ≡ false)
        × (length hexkey % 2 ≡ 0)
        × (all_hexdigits hexkey ≡ true)
        × ((record { cipher = cipher; hexkey = hexkey }) ≡ e))
unfolding new_encryption
new_encryption_iff cipher hexkey e = ground arith
