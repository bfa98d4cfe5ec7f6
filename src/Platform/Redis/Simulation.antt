-- ===== src/Platform/Redis/Simulation.antt =====
-- A documented client against the functions of the specification: code over the client and the same
-- code over the functions give the same results, and keep the same keys.
use srv.Prelude.{
  ◌≡◌, refl, ap, ap₂, ◌∙◌, ite, Result, ok, err, Exec, and_then, lift, handle, ◌>>=◌, Text, [],
  none,
}
use srv.Platform.Redis.{Redis, Kind, Command}
use srv.Platform.Redis.Spec.{Keyspace, exec, Documented}

-- The specification as a client. Its scans find nothing: they are not part of the specification.
abbrev pub spec_redis : Redis
spec_redis = record { World = Keyspace; run = exec; scan = λ p m. (([], none), m) }

abbrev pub spec_documented : Documented spec_redis
spec_documented = record {
  Healthy = λ m. Unit;
  view = λ m. m;
  replies = λ k c w h. refl;
  view-run = λ k c w h. refl;
  run-Healthy = λ k c w h. tt;
}

module _ {r : Redis} (d : Documented r) where
  pub record Simulates {A : Type 0} (m : Exec r.World A) (s : Exec Keyspace A) : Type 0 where
    pub reply : (w : r.World) → d.Healthy w → (m w).0 ≡ (s (d.view w)).0
    pub keeps : (w : r.World) → d.Healthy w → d.view (m w).1 ≡ (s (d.view w)).1
    pub healthy : (w : r.World) → d.Healthy w → d.Healthy (m w).1

  pub Simulates-run : (k : Kind) (c : Command k) → Simulates (r.run k c) (exec k c)
  Simulates-run k c = record {
    reply = d.replies k c;
    keeps = d.view-run k c;
    healthy = d.run-Healthy k c;
  }

  pub Simulates-lift : {A : Type 0} (res : Result A) → Simulates (lift res) (lift res)
  Simulates-lift res = record { reply = λ w h. refl; keeps = λ w h. refl; healthy = λ w h. h }

  pub Simulates-ite :
      {A : Type 0} {P : Type 0} (c : Dec P) {m n : Exec r.World A} {s t : Exec Keyspace A}
      → Simulates m s
      → Simulates n t
      → Simulates (ite c m n) (ite c s t)
  Simulates-ite (yes p) a b = a
  Simulates-ite (no p) a b = b

  pub Simulates-handle :
      {A B : Type 0} {m : Exec r.World A} {s : Exec Keyspace A} {f : Result A → Exec r.World B}
      {g : Result A → Exec Keyspace B}
      → Simulates m s
      → ((res : Result A) → Simulates (f res) (g res))
      → Simulates (handle m f) (handle s g)
  Simulates-handle {m = m} {s = s} {f = f} {g = g} a b = record {
    reply = λ w h.
        (b (m w).0).reply (m w).1 (a.healthy w h)
        ∙ ap₂ (λ res v. (g res v).0) (a.reply w h) (a.keeps w h);
    keeps = λ w h.
        (b (m w).0).keeps (m w).1 (a.healthy w h)
        ∙ ap₂ (λ res v. (g res v).1) (a.reply w h) (a.keeps w h);
    healthy = λ w h. (b (m w).0).healthy (m w).1 (a.healthy w h);
  }

  Simulates-after :
      {A B : Type 0} {f : A → Exec r.World B} {g : A → Exec Keyspace B}
      → ((a : A) → Simulates (f a) (g a))
      → (res : Result A) → Simulates (λ w. and_then (res, w) f) (λ v. and_then (res, v) g)
  Simulates-after b (ok a) = b a
  Simulates-after b (err e) = Simulates-lift (err e)

  pub Simulates-bind :
      {A B : Type 0} {m : Exec r.World A} {s : Exec Keyspace A} {f : A → Exec r.World B}
      {g : A → Exec Keyspace B}
      → Simulates m s
      → ((a : A) → Simulates (f a) (g a))
      → Simulates (m >>= f) (s >>= g)
  Simulates-bind a b = Simulates-handle a (Simulates-after b)

  -- One command on a key that may be refused.
  pub Simulates-keyed :
      (k : Kind) (key : Result Text) (c : Text → Command k)
      → Simulates (lift key >>= λ t. r.run k (c t)) (lift key >>= λ t. exec k (c t))
  Simulates-keyed k key c = Simulates-bind (Simulates-lift key) (λ t. Simulates-run k (c t))

  -- Two calls in a row: the second one's reply.
  pub Simulates-then :
      {A B : Type 0} {m : Exec r.World A} {s : Exec Keyspace A} {n : Exec r.World B}
      {t : Exec Keyspace B}
      → Simulates m s
      → Simulates n t
      → (w : r.World) → d.Healthy w
      → (n (m w).1).0 ≡ (t (s (d.view w)).1).0
  Simulates-then {m = m} {t = t} a b w h =
      b.reply (m w).1 (a.healthy w h) ∙ ap (λ v. (t v).0) (a.keeps w h)

pub ruleset simulation =
    (Simulates-run, Simulates-lift, Simulates-ite, Simulates-handle, Simulates-bind)
