-- ===== src/Session/Securing.antt =====
-- The TLS setters keep the client sound.
use moscapsule.Prelude.{refl, ℤ, Bool, true, Option, none, some, List, [], ◌∷◌, ◌||◌}
use moscapsule.Types.{Text}
use moscapsule.Outcome.{ok, After, After-bind}
use moscapsule.Conn.{Conn, with_mem, malloc}
use moscapsule.Net.Calm.{Receivable}
use moscapsule.Client.{TlsOptions, Mosquitto, on_conn}
use moscapsule.Options.{must_have}
use moscapsule.Tls.{same_caseless}
use moscapsule.Tls.Setters.{
  with_tls, cafile_set, capath_set, certfile_set, keyfile_set, version_set, ciphers_set, psk_set,
  psk_identity_set, store_identity, store, store_file, no_ca, no_certificate, bad_files, tls_set,
  tlsv1, tlsv1_1, tlsv1_2, store_version, tls_opts_set, tls_insecure_set, all_hex, tls_psk_set,
}
use moscapsule.Session.Sound.{Sound, conn-Sound, must_have-Sound, if-After}
use moscapsule.Session.Setting.{same-Good}

with_tls-Sound : (f : TlsOptions → TlsOptions) (m : Mosquitto) → Sound m → Sound (with_tls f m)
with_tls-Sound f m h = (h.0, h.1, same-Good m.options _ refl refl refl refl refl h.2, h.3)

store-Sound :
    (put : Option Text → TlsOptions → TlsOptions) (t : Option Text) (m : Mosquitto)
    → Sound m
    → After Sound (store put t m)
store-Sound put none m h = with_tls-Sound (put none) m h
store-Sound put (some t) m h =
    let n : Mosquitto = with_tls (put none) m in
    After-bind Sound (must_have n) _ (must_have-Sound n (with_tls-Sound (put none) m h))
      (λ _ n1 k. with_tls-Sound (put (some t)) n1 k)

store_file-Sound :
    (opens : Text → Bool) (undo : TlsOptions → TlsOptions)
    (put : Option Text → TlsOptions → TlsOptions) (t : Option Text) (m : Mosquitto)
    → Sound m
    → After Sound (store_file opens undo put t m)
store_file-Sound opens undo put none m h = store-Sound put none m h
store_file-Sound opens undo put (some t) m h =
    if-After Sound (opens t) _ _ (λ _. store-Sound put (some t) m h) (λ _. with_tls-Sound undo m h)

pub tls_set-Sound :
    (opens : Text → Bool) (cafile capath certfile keyfile : Option Text) (m : Mosquitto)
    → Sound m
    → After Sound (tls_set opens cafile capath certfile keyfile m)
unfolding tls_set
tls_set-Sound opens cafile capath certfile keyfile m h =
    if-After Sound (bad_files cafile capath certfile keyfile) _ _ (λ _. h)
      λ _.
        After-bind Sound (store_file opens (λ o. o) cafile_set cafile m) _
          (store_file-Sound opens (λ o. o) cafile_set cafile m h)
          λ _ n1 h1.
            After-bind Sound (store capath_set capath n1) _ (store-Sound capath_set capath n1 h1)
              λ _ n2 h2.
                After-bind Sound (store_file opens no_ca certfile_set certfile n2) _
                  (store_file-Sound opens no_ca certfile_set certfile n2 h2)
                  λ _ n3 h3. store_file-Sound opens no_certificate keyfile_set keyfile n3 h3

store_version-Sound : (v : Option Text) (m : Mosquitto) → Sound m → After Sound (store_version v m)
store_version-Sound none m h = store-Sound version_set (some tlsv1_2) m h
store_version-Sound (some v) m h =
    if-After Sound (same_caseless v tlsv1_2 || (same_caseless v tlsv1_1 || same_caseless v tlsv1)) _
      _ (λ _. store-Sound version_set (some v) m h) (λ _. h)

pub tls_opts_set-Sound :
    (cert_reqs : ℤ) (version ciphers : Option Text) (m : Mosquitto)
    → Sound m
    → After Sound (tls_opts_set cert_reqs version ciphers m)
unfolding tls_opts_set
tls_opts_set-Sound cert_reqs version ciphers m h =
    let n : Mosquitto = with_tls (λ o. record o { cert_reqs = cert_reqs }) m in
    After-bind Sound (store_version version n) _
      (store_version-Sound version n (with_tls-Sound (λ o. record o { cert_reqs = cert_reqs }) m h))
      (λ _ n1 k. store-Sound ciphers_set ciphers n1 k)

pub tls_insecure_set-Sound :
    (value : Bool) (m : Mosquitto) → Sound m → After Sound (tls_insecure_set value m)
unfolding tls_insecure_set
tls_insecure_set-Sound value m h = with_tls-Sound (λ o. record o { insecure = value }) m h

malloc-Receivable : (c : Conn) → Receivable c → After Receivable (malloc c)
unfolding malloc
malloc-Receivable c h = go c.mem
  where
    go :
        (l : List Bool)
        → After Receivable (elim l [ [] ↦ ok true c | answer ∷ rest ↦ ok answer (with_mem rest c) ])
    go [] = h
    go (answer ∷ rest) = h

store_identity-Sound :
    (identity : Text) (m : Mosquitto) → Sound m → After Sound (store_identity identity m)
store_identity-Sound identity m h =
    let n : Mosquitto = with_tls (psk_identity_set none) m in
    After-bind Sound (on_conn malloc n) _
      (conn-Sound malloc n (with_tls-Sound (psk_identity_set none) m h)
        (malloc-Receivable n.conn h.3))
      λ granted n1 h1.
        if-After Sound granted _ _ (λ _. with_tls-Sound (psk_identity_set (some identity)) n1 h1)
          (λ _. with_tls-Sound (λ o. record o { psk_freed = true }) n1 h1)

pub tls_psk_set-Sound :
    (psk identity ciphers : Option Text) (m : Mosquitto)
    → Sound m
    → After Sound (tls_psk_set psk identity ciphers m)
unfolding tls_psk_set
tls_psk_set-Sound none identity ciphers m h = h
tls_psk_set-Sound (some psk) none ciphers m h = h
tls_psk_set-Sound (some psk) (some identity) ciphers m h =
    if-After Sound (all_hex psk) _ _
      (λ _.
        After-bind Sound (store psk_set (some psk) m) _ (store-Sound psk_set (some psk) m h)
          λ _ n1 h1.
            After-bind Sound (store_identity identity n1) _ (store_identity-Sound identity n1 h1)
              (λ _ n2 h2. store-Sound ciphers_set ciphers n2 h2))
      (λ _. h)
