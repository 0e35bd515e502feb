-- ===== src/Driver/Given.antt =====
-- crates/sqlx-turso-core/src/driver.rs and options.rs: what a connection is sent whose options a chain
-- of setters has built.
use sqlx_turso.Base.{
  if◌then◌else◌, ok, ℕ, ◌≡◌, refl, sym, ap, ◌∙◌, inl, inr, false, Option, none, some, List, [], ◌∷◌,
  ◌++◌, arith,
}
use sqlx_turso.Text.{Text, codes, text_eq}
use sqlx_turso.Options.{TursoConnectOptions, default}
use sqlx_turso.Options.Setters.{Setter, call_all}
use sqlx_turso.Options.Setters.Last.{entries, HasOne, default_value, given_last, call_all-HasOne}
use sqlx_turso.Builder.{Builders, Opening}
use sqlx_turso.Driver.Updates.{PragmaLog, valued}
use sqlx_turso.Driver.Sent.{sent, connect-sent}

-- The text of a value, if it has one.
abbrev as_list : Option Text → List Text
as_list none = []
as_list (some value) = value ∷ []

-- What a list of names and values gives for a name.
abbrev pub sent_as : Text → List (Text × Text) → List Text
sent_as key [] = []
sent_as key ((name, value) ∷ ps) =
    if text_eq name key then value ∷ sent_as key ps else sent_as key ps

abbrev some_of : List (Option Text) → List Text
some_of [] = []
some_of (none ∷ values) = some_of values
some_of (some value ∷ values) = value ∷ some_of values

sent_as-valued :
    (key : Text) (ps : List (Text × Option Text))
    → sent_as key (valued ps) ≡ some_of (entries key ps)
sent_as-valued key [] = refl
sent_as-valued key ((name, none) ∷ ps) = ground (arith, sent_as-valued key ps)
sent_as-valued key ((name, some value) ∷ ps) = ground (arith, sent_as-valued key ps)

-- A name that has one value is sent with it, and a name that has none is not sent.
sent_as-HasOne :
    (key : Text) (value : Option Text) (ps : List (Text × Option Text))
    → HasOne key value ps
    → sent_as key (valued ps) ≡ as_list value
sent_as-HasOne key none ps (inl h) = sent_as-valued key ps ∙ ap some_of h
sent_as-HasOne key (some value) ps (inl h) = sent_as-valued key ps ∙ ap some_of h
sent_as-HasOne key value ps (inr (h, k)) = sent_as-valued key ps ∙ ap some_of h ∙ ap as_list (sym k)

module _ {Io Log : Type 0} (B : Builders Io) (L : PragmaLog B) where
  -- A connection that is opened with options built from the default ones by any calls of the setters
  -- has been sent each pragma other than `busy_timeout` once, with the value that its name was given
  -- last, or not at all where that is no value. The builders have a log of pragmas that nothing but an
  -- update writes to.
  pub connect-given_last :
      (ss : List (Setter Io Log)) (settings : Log) (seqno : ℕ) (key : Text) (c : B.Connection)
      (s t : Opening B)
      → text_eq (codes "busy_timeout") key ≡ false
      → sqlx_turso.Driver.connect B (call_all ss (default settings seqno)) s ≡ (ok c, t)
      → (added : List (Text × Text)) × (L.log t.world ≡ L.log s.world ++ added)
        × (sent_as key added ≡ as_list (given_last key ss (default_value key)))
  connect-given_last ss settings seqno key c s t other opened =
      let o : TursoConnectOptions Io Log = call_all ss (default settings seqno) in
      let given = given_last key ss (default_value key) in
      (
        sent B L o,
        (connect-sent B L o c s t opened).0,
        rw other (sent_as-HasOne key given o.pragmas (call_all-HasOne key ss settings seqno)),
      )
