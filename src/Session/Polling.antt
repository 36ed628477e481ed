-- ===== src/Session/Polling.antt =====
-- `mosquitto_loop` keeps the client sound, where it returns.
use moscapsule.Prelude.{ℕ, Bool, true, false, List, [], ◌∷◌, ltb, ◌&&◌, ◌||◌, is_some, ◌≡◌, refl}
use moscapsule.Outcome.{ok, After, After-bind}
use moscapsule.Opening.{connect_tls}
use moscapsule.Opening.Keeping.{connect_tls-Receivable}
use moscapsule.Client.{Mosquitto, on_conn}
use moscapsule.Loop.{loop_read, loop_write}
use moscapsule.Loop.Polling.{
  Selected, interrupted, select_fails, ready, too_large, asks_for_write, read_all, tls_connected,
  read_ready, write_ready, misc_after, write_after, after_select, loop,
}
use moscapsule.Session.Sound.{Sound, Keeps, After-Keeps, Keeps-bind, if-Keeps, conn-Sound}
use moscapsule.Session.Reading.{loop_read-Sound, loop_write-Sound}
use moscapsule.Session.Timing.{loop_misc-Sound}

read_all-Sound :
    (max_packets : ℕ) (pending : List Bool) (m : Mosquitto)
    → Sound m
    → After Sound (read_all max_packets pending m)
unfolding read_all
read_all-Sound max_packets [] m h =
    After-bind Sound (loop_read max_packets m) _ (loop_read-Sound max_packets m h) (λ _ n k. k)
read_all-Sound max_packets (pending ∷ rest) m h =
    After-bind Sound (loop_read max_packets m) _ (loop_read-Sound max_packets m h) (λ _ n k.
      again n (is_some n.sock && n.ssl && pending) k (read_all-Sound max_packets rest n k))
  where
    again :
        (n : Mosquitto) (b : Bool)
        → Sound n
        → After Sound (read_all max_packets rest n)
        → After Sound
            (elim b [ true ↦ read_all max_packets rest n | false ↦ ok (is_some n.sock) n ])
    again n true k next = next
    again n false k next = k

tls_connected-Keeps : (m : Mosquitto) → Sound m → Keeps (tls_connected m)
unfolding connect_tls
tls_connected-Keeps m h = go m.ssl refl
  where
    go : (b : Bool) → m.ssl ≡ b → Keeps (tls_connected m)
    go true e = After-Keeps (tls_connected m) (
        After-bind Sound (on_conn connect_tls m) _
          (conn-Sound connect_tls m h (connect_tls-Receivable m.conn e h.3)) (λ _ n k. k))
    go false e = rw (e, connect_tls) tt

read_ready-Keeps :
    (max_packets : ℕ) (readable : Bool) (pending : List Bool) (m : Mosquitto)
    → Sound m
    → Keeps (read_ready max_packets readable pending m)
read_ready-Keeps max_packets readable pending m h =
    if-Keeps readable _ _
      (λ _.
        if-Keeps m.want_connect _ _ (λ _. tls_connected-Keeps m h)
          (λ _. After-Keeps _ (read_all-Sound max_packets pending m h)))
      (λ _. h)

write_ready-Keeps :
    (max_packets : ℕ) (writable : Bool) (m : Mosquitto)
    → Sound m
    → Keeps (write_ready max_packets writable m)
write_ready-Keeps max_packets writable m h =
    if-Keeps writable _ _
      (λ _.
        if-Keeps m.want_connect _ _ (λ _. tls_connected-Keeps m h)
          (λ _.
            Keeps-bind (loop_write max_packets m) _
              (After-Keeps _ (loop_write-Sound max_packets m h)) (λ _ n k. k)))
      (λ _. h)

misc_after-Sound : (b : Bool) (m : Mosquitto) → Sound m → After Sound (misc_after b m)
misc_after-Sound true m h = loop_misc-Sound m h
misc_after-Sound false m h = h

write_after-Keeps :
    (max_packets : ℕ) (writable b : Bool) (m : Mosquitto)
    → Sound m
    → Keeps (write_after max_packets writable b m)
write_after-Keeps max_packets writable true m h =
    Keeps-bind (write_ready max_packets writable m) _ (write_ready-Keeps max_packets writable m h)
      (λ b n k. After-Keeps _ (misc_after-Sound b n k))
write_after-Keeps max_packets writable false m h = h

after_select-Keeps :
    (max_packets : ℕ) (asked : Bool) (selected : Selected) (m : Mosquitto)
    → Sound m
    → Keeps (after_select max_packets asked selected m)
after_select-Keeps max_packets asked interrupted m h = h
after_select-Keeps max_packets asked select_fails m h = h
after_select-Keeps max_packets asked (ready readable woken writable pending) m h =
    Keeps-bind (read_ready max_packets readable pending m) _
      (read_ready-Keeps max_packets readable pending m h)
      (λ b n k. write_after-Keeps max_packets _ b n k)

pub loop-Keeps :
    (max_packets : ℕ) (selected : Selected) (m : Mosquitto)
    → Sound m
    → Keeps (loop max_packets selected m)
unfolding loop
loop-Keeps max_packets selected m h =
    if-Keeps (ltb max_packets 1 || (too_large m.sock || too_large m.sockpair_r)) _ _ (λ _. h)
      λ _.
        if-Keeps (is_some m.sock) _ _
          (λ _. after_select-Keeps max_packets (asks_for_write m.conn) selected m h) (λ _. h)
