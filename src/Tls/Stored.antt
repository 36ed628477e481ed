-- ===== src/Tls/Stored.antt =====
-- What `mosquitto_tls_set` leaves.
use moscapsule.Prelude.{
  ◌≡◌, refl, ap, ◌∙◌, Bool, true, false, Option, none, some, if◌then◌else◌, ◌⊎◌, inl, inr, is_some,
  not, ◌&&◌, ◌||◌, arith,
}
use moscapsule.Types.{Text, inval}
use moscapsule.Outcome.{Outcome, ok, err, crash, Holds, Holds-bind, Holds-weaken}
use moscapsule.Conn.{Conn, must_malloc}
use moscapsule.Send.Wire.{must_malloc-Holds}
use moscapsule.Client.{TlsOptions, Options, Mosquitto, lifted}
use moscapsule.Options.{must_have}
use moscapsule.Tls.Setters.{
  with_tls, cafile_set, capath_set, certfile_set, keyfile_set, store, store_file, no_ca,
  no_certificate, bad_files, store_files, tls_set,
}

abbrev pub in_tls : (TlsOptions → TlsOptions) → Options → Options
in_tls f o = record o { tls = f o.tls }

abbrev Leaves : (TlsOptions → TlsOptions) → Mosquitto → Unit {0} → Mosquitto → Type 0
Leaves f m _ n = n.options ≡ in_tls f m.options

must_have-Leaves : (m : Mosquitto) → Holds (λ _ n. n.options ≡ m.options) (must_have m)
must_have-Leaves m = go _ (must_malloc m.conn) (must_malloc-Holds m.conn)
  where
    go :
        (P : Unit {0} → Conn → Type 0) (o : Outcome Conn (Unit {0}))
        → Holds P o
        → Holds (λ _ n. n.options ≡ m.options) (lifted m o)
    go P (ok a c) e = refl
    go P (err rc c) e = tt
    go P crash e = e

store-Leaves :
    (put : Option Text → TlsOptions → TlsOptions) (t : Option Text) (m : Mosquitto)
    → ((o : TlsOptions) → put t (put none o) ≡ put t o)
    → Holds (Leaves (put t) m) (store put t m)
store-Leaves put none m twice = refl
store-Leaves put (some t) m twice =
    Holds-bind (λ _ n. n.options ≡ in_tls (put none) m.options) (Leaves (put (some t)) m)
      (must_have (with_tls (put none) m)) _ (must_have-Leaves (with_tls (put none) m))
      (λ _ n e.
        ap (in_tls (put (some t))) e
        ∙ ap (λ x. record (m.options) { tls = x }) (twice m.options.tls))

store_file-Leaves :
    (opens : Text → Bool) (undo : TlsOptions → TlsOptions)
    (put : Option Text → TlsOptions → TlsOptions) (t : Option Text) (m : Mosquitto)
    → ((o : TlsOptions) → put t (put none o) ≡ put t o)
    → Holds (Leaves (put t) m) (store_file opens undo put t m)
store_file-Leaves opens undo put none m twice = store-Leaves put none m twice
store_file-Leaves opens undo put (some t) m twice = go (opens t)
  where
    go :
        (b : Bool)
        → Holds
            (Leaves (put (some t)) m)
            (if b then store put (some t) m else err inval (with_tls undo m))
    go true = store-Leaves put (some t) m twice
    go false = tt

-- The four files of a client that `mosquitto_tls_set` has accepted.
abbrev pub given : Option Text → Option Text → Option Text → Option Text → TlsOptions → TlsOptions
given cafile capath certfile keyfile o = record o {
  cafile = cafile;
  capath = capath;
  certfile = certfile;
  keyfile = keyfile;
}

-- A CA file or directory is given, and a certificate and a key together or neither.
abbrev pub WellGiven : Option Text → Option Text → Option Text → Option Text → Type 0
WellGiven cafile capath certfile keyfile =
    ((is_some cafile ≡ true) ⊎ (is_some capath ≡ true)) × (is_some certfile ≡ is_some keyfile)

not-bad_files :
    (cafile capath certfile keyfile : Option Text)
    → bad_files cafile capath certfile keyfile ≡ false
    → WellGiven cafile capath certfile keyfile
not-bad_files cafile capath certfile keyfile e =
    go (is_some cafile) (is_some capath) (is_some certfile) (is_some keyfile) e
  where
    go :
        (a b c k : Bool)
        → ((not a && not b) || ((c && not k) || (not c && k))) ≡ false
        → ((a ≡ true) ⊎ (b ≡ true)) × (c ≡ k)
    go true b true true e = (inl refl, refl)
    go true b false false e = (inl refl, refl)
    go true b true false e = absurd (ground (arith, e))
    go true b false true e = absurd (ground (arith, e))
    go false true true true e = (inr refl, refl)
    go false true false false e = (inr refl, refl)
    go false true true false e = absurd (ground (arith, e))
    go false true false true e = absurd (ground (arith, e))
    go false false c k e = absurd (ground (arith, e))

-- `mosquitto_tls_set` returns a code, and where that is success, a CA is given, a certificate is given
-- exactly if a key is, and the options are those of before with the four texts as they are given.
pub tls_set-stored :
    (opens : Text → Bool) (cafile capath certfile keyfile : Option Text) (m : Mosquitto)
    → Holds
        (λ _ n.
          WellGiven cafile capath certfile keyfile
          × (n.options ≡ in_tls (given cafile capath certfile keyfile) m.options))
        (tls_set opens cafile capath certfile keyfile m)
unfolding tls_set
tls_set-stored opens cafile capath certfile keyfile m =
    go (bad_files cafile capath certfile keyfile) (not-bad_files cafile capath certfile keyfile)
  where
    stored :
        Holds
          (λ _ n. n.options ≡ in_tls (given cafile capath certfile keyfile) m.options)
          (store_files opens cafile capath certfile keyfile m)
    stored =
        Holds-bind (Leaves (cafile_set cafile) m) _ (store_file opens (λ o. o) cafile_set cafile m)
          _ (store_file-Leaves opens (λ o. o) cafile_set cafile m (λ o. refl))
          λ _ n1 e1.
            Holds-bind (Leaves (capath_set capath) n1) _ (store capath_set capath n1) _
              (store-Leaves capath_set capath n1 (λ o. refl))
              λ _ n2 e2.
                Holds-bind (Leaves (certfile_set certfile) n2) _
                  (store_file opens no_ca certfile_set certfile n2) _
                  (store_file-Leaves opens no_ca certfile_set certfile n2 (λ o. refl))
                  λ _ n3 e3.
                    Holds-weaken _ _ (store_file opens no_certificate keyfile_set keyfile n3)
                      (store_file-Leaves opens no_certificate keyfile_set keyfile n3 (λ o. refl))
                      (λ _ n4 e4.
                        e4
                        ∙ ap (in_tls (keyfile_set keyfile)) (
                            e3
                            ∙ ap (in_tls (certfile_set certfile))
                                (e2 ∙ ap (in_tls (capath_set capath)) e1)))

    go :
        (b : Bool)
        → (b ≡ false → WellGiven cafile capath certfile keyfile)
        → Holds
            (λ _ n.
              WellGiven cafile capath certfile keyfile
              × (n.options ≡ in_tls (given cafile capath certfile keyfile) m.options))
            (if b then err inval m else store_files opens cafile capath certfile keyfile m)
    go true well = tt
    go false well =
        Holds-weaken (λ _ n. n.options ≡ in_tls (given cafile capath certfile keyfile) m.options)
          (λ _ n.
            WellGiven cafile capath certfile keyfile
            × (n.options ≡ in_tls (given cafile capath certfile keyfile) m.options))
          (store_files opens cafile capath certfile keyfile m) stored (λ _ n e. (well refl, e))
