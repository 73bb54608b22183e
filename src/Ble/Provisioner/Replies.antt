-- ===== src/Ble/Provisioner/Replies.antt =====
-- ble_provisioning.py: `_wait_for` against the list of all the replies that come.
use seed_mg.Prelude.{
  ℕ, String, ◌≡◌, true, false, Option, none, some, List, [], ◌∷◌, ◌++◌, any, Bool-cases, inl, inr,
  Result, ok, err,
}
use seed_mg.Models.Json.{Json, Fields, find_field, get_field, equals_text, is_hashable}
use seed_mg.Ble.Provisioner.{
  BleError, timed_out, type_error, device_rejected, Command, Client, Session, reply_of,
}
use seed_mg.Ble.Provisioner.Waiting.{code_of, verdict, chosen, heard, listen, drain, wait_for}

abbrev with_reply : Option Fields → List Fields → List Fields
with_reply none rs = rs
with_reply (some r) rs = r ∷ rs

-- The replies among the notifications.
unfoldable pub replies : (List ℕ → Option Json) → List (List ℕ) → List Fields
replies loads [] = []
replies loads (n ∷ ns) = with_reply (reply_of (loads n)) (replies loads ns)

module _ (tx : String) (codes : List String) where
  -- What a wait for the transaction `tx` and one of `codes` makes of the replies, in their order.
  pub data FirstAnswer : List Fields → Result BleError Fields → Type 0 where
    silence : FirstAnswer [] (err timed_out)
    other_transaction :
        {r : Fields} {rs : List Fields} {x : Result BleError Fields}
        → equals_text (get_field "tx" r) tx ≡ false
        → FirstAnswer rs x
        → FirstAnswer (r ∷ rs) x
    other_code :
        {r : Fields} {rs : List Fields} {x : Result BleError Fields}
        → equals_text (get_field "tx" r) tx ≡ true
        → equals_text (get_field "t" r) "ce" ≡ false
        → is_hashable (get_field "code" r) ≡ true
        → any (equals_text (get_field "code" r)) codes ≡ false
        → FirstAnswer rs x
        → FirstAnswer (r ∷ rs) x
    node_error :
        {r : Fields} {rs : List Fields}
        → equals_text (get_field "tx" r) tx ≡ true
        → equals_text (get_field "t" r) "ce" ≡ true
        → FirstAnswer (r ∷ rs) (err (device_rejected (code_of (find_field "code" r))))
    unhashable_code :
        {r : Fields} {rs : List Fields}
        → equals_text (get_field "tx" r) tx ≡ true
        → equals_text (get_field "t" r) "ce" ≡ false
        → is_hashable (get_field "code" r) ≡ false
        → FirstAnswer (r ∷ rs) (err type_error)
    answer :
        {r : Fields} {rs : List Fields}
        → equals_text (get_field "tx" r) tx ≡ true
        → equals_text (get_field "t" r) "ce" ≡ false
        → any (equals_text (get_field "code" r)) codes ≡ true
        → FirstAnswer (r ∷ rs) (ok r)

  module _ {D : Type 0} (client : Client D) (loads : List ℕ → Option Json) where
    chosen-FirstAnswer :
        (rest : Result BleError Fields × Session D) (s : Session D) (r : Fields) (rs : List Fields)
        → FirstAnswer rs rest.0
        → FirstAnswer (r ∷ rs) (chosen client loads rest s r (verdict tx codes r)).0
    chosen-FirstAnswer rest s r rs later = elim (Bool-cases (equals_text (get_field "tx" r) tx)) [
      | inr foreign ↦ rw foreign (other_transaction foreign later)
      | inl own ↦ elim (Bool-cases (equals_text (get_field "t" r) "ce")) [
        | inl e ↦ rw (own, e) (node_error own e)
        | inr fine ↦ elim (Bool-cases (is_hashable (get_field "code" r))) [
          | inr odd ↦ rw (own, fine, odd) (unhashable_code own fine odd)
          | inl plain ↦ elim (Bool-cases (any (equals_text (get_field "code" r)) codes)) [
            | inl hit ↦ rw (own, fine, plain, hit) (answer own fine hit)
            | inr miss ↦ rw (own, fine, plain, miss) (other_code own fine plain miss later)
          ]
        ]
      ]
    ]

    heard-FirstAnswer :
        (d : D) (w : List Command) (ns : List (List ℕ)) (o : Option Fields)
        → FirstAnswer (replies loads ns) (listen client loads tx codes d w ns).0
        → FirstAnswer
            (with_reply o (replies loads ns))
            (heard client loads tx codes d w (listen client loads tx codes d w ns) ns o).0
    heard-FirstAnswer d w ns none h = h
    heard-FirstAnswer d w ns (some r) h =
        chosen-FirstAnswer (listen client loads tx codes d w ns) _ r (replies loads ns) h

    listen-FirstAnswer :
        (d : D) (w : List Command) (ns : List (List ℕ))
        → FirstAnswer (replies loads ns) (listen client loads tx codes d w ns).0
    unfolding listen replies
    listen-FirstAnswer d w [] = silence
    listen-FirstAnswer d w (n ∷ ns) =
        heard-FirstAnswer d w ns (reply_of (loads n)) (listen-FirstAnswer d w ns)

    drain-FirstAnswer :
        (d : D) (w : List Command) (ns : List (List ℕ)) (q : List Fields)
        → FirstAnswer (q ++ replies loads ns) (drain client loads tx codes d w ns q).0
    unfolding drain
    drain-FirstAnswer d w ns [] = listen-FirstAnswer d w ns
    drain-FirstAnswer d w ns (r ∷ q) =
        chosen-FirstAnswer (drain client loads tx codes d w ns q) _ r (q ++ replies loads ns)
          (drain-FirstAnswer d w ns q)

    -- `_wait_for` takes the replies that are queued and then those that the node sends until the
    -- deadline, in that order. It passes over a reply of another transaction, and over one without
    -- one of the codes; it raises for the first error of the node, and for a code that cannot be in a
    -- set; it returns the first other reply with one of the codes; and it times out without any.
    pub wait_for-FirstAnswer :
        (s : Session D)
        → FirstAnswer
            (s.queue ++ replies loads s.pending)
            ((wait_for client loads tx codes).run s).0
    wait_for-FirstAnswer s = drain-FirstAnswer s.device s.written s.pending s.queue
