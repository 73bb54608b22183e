-- ===== src/Ble/Provisioner/Invariants.antt =====
-- ble_provisioning.py: what every conversation with a node keeps.
use seed_mg.Prelude.{ℕ, String, ◌≡◌, refl, Option, none, some, List, [], ◌∷◌, ◌++◌, Result}
use seed_mg.Models.Json.{Json, Fields}
use seed_mg.Ble.Task.Keeps.{WhenOk, Any, Any-WhenOk, Keeps, bind-Keeps, lift-Keeps}
use seed_mg.Ble.Provisioner.{
  BleError, Command, Characteristic, onboarding_identity_uuid, Client, Session, reply_of, deliver,
}
use seed_mg.Ble.Provisioner.Waiting.{
  Verdict, skipped, raised, accepted, verdict, chosen, heard, listen, drain, wait_for, after_write,
  write, moved, step, of_read, read_bytes, read_json, loaded,
}
use seed_mg.Ble.Provisioner.Provision.{read_onboarding}

module _ {D : Type 0} (client : Client D) (loads : List ℕ → Option Json) where
  -- A property of the queue that every wait keeps.
  pub record IsKeptByWaits (Q : List Fields → Type 0) : Type 0 where
    pub empty : Q []
    pub rest : (r : Fields) (rs : List Fields) → Q (r ∷ rs) → Q rs
    pub delivered : (q : List Fields) (ns : List (List ℕ)) → Q q → Q (deliver loads q ns)

  -- A property of a session that the queue and the commands decide.
  module _ (Q : List Fields → Type 0) (W : List Command → Type 0) (rule : IsKeptByWaits Q) where
    abbrev pub Kept : Session D → Type 0
    Kept s = Q s.queue × W s.written

    chosen-Kept :
        (x : Result BleError Fields × Session D) (s : Session D) (r : Fields) (v : Verdict)
        → Kept x.1
        → Kept s
        → Kept ((chosen client loads x s r v).1)
    chosen-Kept x s r skipped i j = i
    chosen-Kept x s r (raised e) i j = j
    chosen-Kept x s r accepted i j = j

    heard-Kept :
        (tx : String) (codes : List String) (d : D) (w : List Command)
        (x : Result BleError Fields × Session D) (ns : List (List ℕ)) (o : Option Fields)
        → W w
        → Kept x.1
        → Kept ((heard client loads tx codes d w x ns o).1)
    heard-Kept tx codes d w x ns none h i = i
    heard-Kept tx codes d w x ns (some r) h i =
        chosen-Kept x _ r (verdict tx codes r) i (rule.empty, h)

    listen-Kept :
        (tx : String) (codes : List String) (d : D) (w : List Command) (ns : List (List ℕ))
        → W w
        → Kept ((listen client loads tx codes d w ns).1)
    unfolding listen
    listen-Kept tx codes d w [] h = (rule.empty, h)
    listen-Kept tx codes d w (n ∷ ns) h =
        heard-Kept tx codes d w _ ns (reply_of (loads n)) h (listen-Kept tx codes d w ns h)

    drain-Kept :
        (tx : String) (codes : List String) (d : D) (w : List Command) (ns : List (List ℕ))
        (q : List Fields)
        → Q q
        → W w
        → Kept ((drain client loads tx codes d w ns q).1)
    unfolding drain
    drain-Kept tx codes d w ns [] i h = listen-Kept tx codes d w ns h
    drain-Kept tx codes d w ns (r ∷ q) i h =
        let left = rule.rest r q i in
        chosen-Kept _ _ r (verdict tx codes r) (drain-Kept tx codes d w ns q left h) (left, h)

    pub wait-Keeps :
        (tx : String) (codes : List String) → Keeps Kept Any (wait_for client loads tx codes)
    unfolding Keeps
    wait-Keeps tx codes s i =
        (drain-Kept tx codes s.device s.written s.pending s.queue i.0 i.1, Any-WhenOk _)

    pub write-Keeps :
        (c : Command)
        → ((w : List Command) → W w → W (w ++ (c ∷ [])))
        → Keeps Kept Any (write client loads c)
    unfolding Keeps
    write-Keeps c add s i = of_write (client.write c s.device)
      where
        of_write :
            (o : Option (List (List ℕ) × List (List ℕ) × D))
            → Kept ((after_write client loads c s o).1)
              × WhenOk Any ((after_write client loads c s o).0)
        of_write none = (i, tt)
        of_write (some (during, later, d)) =
            ((rule.delivered s.queue (s.pending ++ during) i.0, add s.written i.1), tt)

    pub step-Keeps : (f : D → Option D) → Keeps Kept Any (step client loads f)
    unfolding Keeps
    step-Keeps f s i = of_step (f s.device)
      where
        of_step :
            (o : Option D)
            → Kept ((moved client loads s o).1) × WhenOk Any ((moved client loads s o).0)
        of_step none = (i, tt)
        of_step (some d) = (i, tt)

    -- The value of a characteristic, at some time.
    abbrev pub IsRead : Characteristic → Json → Type 0
    IsRead c j =
        (d : D) × (bytes : List ℕ) × (client.read c d ≡ some bytes) × (loads bytes ≡ some j)

    pub bytes-Keeps :
        (c : Characteristic)
        → Keeps Kept (λ bytes. (d : D) × (client.read c d ≡ some bytes)) (read_bytes client loads c)
    unfolding Keeps
    bytes-Keeps c s i = (i, of_bytes (client.read c s.device) refl)
      where
        of_bytes :
            (o : Option (List ℕ))
            → client.read c s.device ≡ o
            → WhenOk (λ bytes. (d : D) × (client.read c d ≡ some bytes)) (of_read client loads o)
        of_bytes none e = tt
        of_bytes (some bytes) e = (s.device, e)

    pub read_json-Keeps : (c : Characteristic) → Keeps Kept (IsRead c) (read_json client loads c)
    read_json-Keeps c =
        bind-Keeps Kept (λ bytes. (d : D) × (client.read c d ≡ some bytes)) (IsRead c)
          (read_bytes client loads c) _ (bytes-Keeps c)
          (λ bytes (d, e). lift-Keeps Kept (IsRead c) _ (of_loads d bytes e (loads bytes) refl))
      where
        of_loads :
            (d : D) (bytes : List ℕ)
            → client.read c d ≡ some bytes
            → (o : Option Json) → loads bytes ≡ o
            → WhenOk (IsRead c) (loaded client loads o)
        of_loads d bytes e none h = tt
        of_loads d bytes e (some j) h = (d, bytes, e, h)

    pub read_onboarding-Keeps : Keeps Kept Any (read_onboarding client loads)
    read_onboarding-Keeps =
        bind-Keeps Kept _ Any (read_bytes client loads onboarding_identity_uuid) _
          (bytes-Keeps onboarding_identity_uuid) (λ bytes _. lift-Keeps Kept Any _ (Any-WhenOk _))
