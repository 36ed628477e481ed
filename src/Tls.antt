-- ===== src/Tls.antt =====
-- mosquitto/lib/tls_mosq.c: is a certificate for the host? What OpenSSL and inet_pton(3) say of the
-- certificate and the host are arguments; strcasecmp(3) is that of the POSIX locale.
pub mod Names
pub mod Setters
pub mod Stored
use moscapsule.Prelude.{
  ℕ, ◌+◌, ◌==◌, ◌!=◌, Bool, true, false, Option, none, some, List, [], ◌∷◌, if◌then◌else◌, ◌&&◌,
  ◌||◌, leb, length, take,
}
use moscapsule.Types.{Text}
use moscapsule.Handle.{c_string}

-- `tolower`
abbrev pub lower : ℕ → ℕ
lower b = if leb 65 b && leb b 90 then b + 32 else b

-- `strcasecmp(a, b) == 0`
unfoldable pub same_caseless : Text → Text → Bool
same_caseless [] [] = true
same_caseless [] (b ∷ bs) = false
same_caseless (a ∷ xs) [] = false
same_caseless (a ∷ xs) (b ∷ bs) = lower a == lower b && same_caseless xs bs

-- The part of a host name behind its first dot; the last byte is not looked at.
unfoldable pub after_label : Text → Option Text
after_label [] = none
after_label (c ∷ []) = none
after_label (c ∷ d ∷ rest) = if c == b'.' then some (d ∷ rest) else after_label (d ∷ rest)

abbrev pub some_or : Option Text → Text → Text
some_or none t = t
some_or (some s) t = s

-- The comparison behind `*.`. With an empty host name `len-1` is the largest number, and the loop
-- reads past the end.
abbrev pub cmp_behind_star : Text → Text → Option Bool
cmp_behind_star rest [] = none
cmp_behind_star rest (h ∷ hs) = some (same_caseless rest (some_or (after_label (h ∷ hs)) (h ∷ hs)))

-- `mosquitto__cmp_hostname_wildcard(certname, hostname) == 0`, where no read is past the end.
unfoldable pub cmp_hostname_wildcard : Text → Text → Option Bool
unfolding same_caseless after_label
cmp_hostname_wildcard [] hostname = some (same_caseless [] hostname)
cmp_hostname_wildcard (c ∷ []) hostname =
    if c == b'*' then some false else some (same_caseless (c ∷ []) hostname)
cmp_hostname_wildcard (c ∷ d ∷ rest) hostname =
    if c == b'*'
    then if d != b'.' then some false else cmp_behind_star rest hostname
    else some (same_caseless (c ∷ d ∷ rest) hostname)

-- An entry of subjectAltName: the bytes of a DNS name or of an address; an entry of another type.
pub data AltName : Type 0 where
  dns ip : List ℕ → AltName
  other_name : AltName

-- `common_name` is what X509_NAME_get_text_by_NID writes into 256 bytes, if it finds the entry.
pub record Certificate : Type 0 where
  pub alt_names : Option (List AltName)
  pub common_name : Option (List ℕ)

-- What inet_pton makes of the host name.
pub record Host : Type 0 where
  pub name : Text
  pub ipv4 : Option (List ℕ)
  pub ipv6 : Option (List ℕ)

unfoldable pub same_bytes : List ℕ → List ℕ → Bool
same_bytes [] [] = true
same_bytes [] (b ∷ bs) = false
same_bytes (a ∷ xs) [] = false
same_bytes (a ∷ xs) (b ∷ bs) = a == b && same_bytes xs bs

-- 4 bytes and an IPv4 address, or 16 bytes and an IPv6 address; inet_pton writes as many.
abbrev pub is_address : Option (List ℕ) → List ℕ → Bool
is_address none data_bytes = false
is_address (some addr) data_bytes = same_bytes addr data_bytes

abbrev pub is_ip : Host → List ℕ → Bool
is_ip host data_bytes =
    (length data_bytes == 4 && is_address host.ipv4 data_bytes)
    || (length data_bytes == 16 && is_address host.ipv6 data_bytes)

-- How the loop over the names ends: at a match, past the end of an empty host name, or with the news
-- whether there was a DNS name.
pub data Alts : Type 0 where
  matched overrun : Alts
  unmatched : Bool → Alts

-- The loop over subjectAltName, with `have_san_dns`. A name is taken up to its first 0 byte.
unfoldable pub alt_loop : List AltName → Host → Bool → Alts
unfolding cmp_hostname_wildcard c_string same_bytes
alt_loop [] host have_san_dns = unmatched have_san_dns
alt_loop (dns data_bytes ∷ rest) host have_san_dns =
    elim (cmp_hostname_wildcard (c_string data_bytes) host.name) [
      | none ↦ overrun
      | some true ↦ matched
      | some false ↦ alt_loop rest host true
    ]
alt_loop (ip data_bytes ∷ rest) host have_san_dns = elim (is_ip host data_bytes) [
  | true ↦ matched
  | false ↦ alt_loop rest host have_san_dns
]
alt_loop (other_name ∷ rest) host have_san_dns = alt_loop rest host have_san_dns

-- The check of the common name, of which there are 255 bytes at most.
unfoldable pub check_common : Option (List ℕ) → Host → Option Bool
unfolding cmp_hostname_wildcard c_string
check_common none host = some false
check_common (some []) host = some false
check_common (some (b ∷ bs)) host = cmp_hostname_wildcard (c_string (take 255 (b ∷ bs))) host.name

abbrev pub after_alts : Alts → Certificate → Host → Option Bool
after_alts matched cert host = some true
after_alts overrun cert host = none
after_alts (unmatched true) cert host = some false
after_alts (unmatched false) cert host = check_common cert.common_name host

abbrev pub names_of : Option (List AltName) → List AltName
names_of none = []
names_of (some names) = names

-- `_mosquitto_verify_certificate_hostname`
unfoldable pub verify_certificate_hostname : Certificate → Host → Option Bool
unfolding alt_loop check_common
verify_certificate_hostname cert host =
    after_alts (alt_loop (names_of cert.alt_names) host false) cert host

-- `_mosquitto_server_certificate_verify` on the certificate at a depth of the chain, with
-- `tls_insecure`.
unfoldable pub server_certificate_verify : Bool → Bool → ℕ → Certificate → Host → Option Bool
unfolding verify_certificate_hostname
server_certificate_verify preverify_ok tls_insecure depth cert host =
    if preverify_ok
    then if tls_insecure
      then some true
      else if depth == 0
      then verify_certificate_hostname cert host
      else some true
    else some false
