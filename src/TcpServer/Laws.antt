-- ===== src/TcpServer/Laws.antt =====
-- The sets of sockets of source/llbase/tcp_server.cpp.
use nitek.Base.{
  ℕ, ◌≡◌, ◌≢◌, refl, sym, ◌∙◌, ap, arith, inl, inr, Bool, Bool-cases, true, false, ◌&&◌, List, [],
  ◌∷◌, ◌++◌, ◌==◌, if◌then◌else◌, All, Distinct, Distinct-snoc,
}
use nitek.TcpServer.{
  TcpServer, Event, element_does_not_exist, push_if_absent, is_connection, handle_event,
}

abbrev pub Has : List ℕ → ℕ → Type 0
Has xs x = element_does_not_exist xs x ≡ false

absent-differs : (xs : List ℕ) (x : ℕ) → element_does_not_exist xs x ≡ true → All (λ y. x ≢ y) xs
unfolding element_does_not_exist
absent-differs [] x h = tt
absent-differs (y ∷ ys) x h = (ground (arith, h), absent-differs ys x (ground (arith, h)))

Has-snoc : (xs : List ℕ) (x y : ℕ) → Has xs y → Has (xs ++ (x ∷ [])) y
unfolding element_does_not_exist
Has-snoc [] x y h = absurd (ground (arith, h))
Has-snoc (z ∷ zs) x y h = ground (arith, h, Has-snoc zs x y)

Has-last : (xs : List ℕ) (x : ℕ) → Has (xs ++ (x ∷ [])) x
unfolding element_does_not_exist
Has-last [] x = ground arith
Has-last (z ∷ zs) x = ground (arith, Has-last zs x)

push_if_absent-Has : (x : ℕ) (xs : List ℕ) → Has (push_if_absent x xs) x
unfolding push_if_absent
push_if_absent-Has x xs = elim (Bool-cases (element_does_not_exist xs x)) [
  | inl e ↦ rw (e, push_if_absent) (Has-last xs x)
  | inr e ↦ rw (e, push_if_absent) e
]

pub push_if_absent-keeps : (x : ℕ) (xs : List ℕ) (y : ℕ) → Has xs y → Has (push_if_absent x xs) y
unfolding push_if_absent
push_if_absent-keeps x xs y h = elim (Bool-cases (element_does_not_exist xs x)) [
  | inl e ↦ rw (e, push_if_absent) (Has-snoc xs x y h)
  | inr e ↦ rw (e, push_if_absent) h
]

pub push_if_absent-Distinct : (x : ℕ) (xs : List ℕ) → Distinct xs → Distinct (push_if_absent x xs)
unfolding push_if_absent
push_if_absent-Distinct x xs d = elim (Bool-cases (element_does_not_exist xs x)) [
  | inl e ↦ rw (e, push_if_absent) (Distinct-snoc xs x d (absent-differs xs x e))
  | inr e ↦ rw (e, push_if_absent) d
]

-- The sets with or without a socket pushed.
maybe : Bool → ℕ → List ℕ → List ℕ
maybe b x xs = if b then push_if_absent x xs else xs

maybe-Has : (b : Bool) (x : ℕ) (xs : List ℕ) → b ≡ true → Has (maybe b x xs) x
unfolding maybe
maybe-Has true x xs h = push_if_absent-Has x xs
maybe-Has false x xs h = absurd (ground (arith, h))

maybe-keeps : (b : Bool) (x : ℕ) (xs : List ℕ) (y : ℕ) → Has xs y → Has (maybe b x xs) y
unfolding maybe
maybe-keeps true x xs y h = push_if_absent-keeps x xs y h
maybe-keeps false x xs y h = h

maybe-Distinct : (b : Bool) (x : ℕ) (xs : List ℕ) → Distinct xs → Distinct (maybe b x xs)
unfolding maybe
maybe-Distinct true x xs d = push_if_absent-Distinct x xs d
maybe-Distinct false x xs d = d

-- No socket stands twice in a set.
pub record IsValid (s : TcpServer) : Type 0 where
  pub rx : Distinct s.rx_sockets
  pub tx : Distinct s.tx_sockets
  pub dx : Distinct s.dx_sockets

pub record Keeps (s s' : TcpServer) : Type 0 where
  pub listener : s'.listener_socket ≡ s.listener_socket
  pub rx : (x : ℕ) → Has s.rx_sockets x → Has s'.rx_sockets x
  pub tx : (x : ℕ) → Has s.tx_sockets x → Has s'.tx_sockets x
  pub dx : (x : ℕ) → Has s.dx_sockets x → Has s'.dx_sockets x

-- What an event says of its socket, unless it is a new connection, is in the sets.
pub record IsRecorded (s : TcpServer) (e : Event) : Type 0 where
  pub rx : is_connection s e ≡ false → e.is_in ≡ true → Has s.rx_sockets e.socket
  pub tx : is_connection s e ≡ false → e.is_out ≡ true → Has s.tx_sockets e.socket
  pub dx : is_connection s e ≡ false → e.is_lost ≡ true → Has s.dx_sockets e.socket

pub Keeps-refl : (s : TcpServer) → Keeps s s
Keeps-refl s = record { listener = refl; rx = λ x h. h; tx = λ x h. h; dx = λ x h. h }

pub Keeps-trans : (s s' s'' : TcpServer) → Keeps s s' → Keeps s' s'' → Keeps s s''
Keeps-trans s s' s'' a b = record {
  listener = b.listener ∙ a.listener;
  rx = λ x h. b.rx x (a.rx x h);
  tx = λ x h. b.tx x (a.tx x h);
  dx = λ x h. b.dx x (a.dx x h);
}

pub IsRecorded-Keeps :
    (s s' : TcpServer) (e : Event) → Keeps s s' → IsRecorded s e → IsRecorded s' e
IsRecorded-Keeps s s' e k r =
    let same : is_connection s' e ≡ is_connection s e =
      ap (λ l. e.is_in && (e.socket == l)) k.listener in
    record {
      rx = λ c h. k.rx e.socket (r.rx (sym same ∙ c) h);
      tx = λ c h. k.tx e.socket (r.tx (sym same ∙ c) h);
      dx = λ c h. k.dx e.socket (r.dx (sym same ∙ c) h);
    }

pub record Handled (es : List Event) (s s' : TcpServer) : Type 0 where
  pub valid : IsValid s'
  pub keeps : Keeps s s'
  pub recorded : All (IsRecorded s') es

pub handle_event-Handled :
    (e : Event) (new : Bool) (s : TcpServer)
    → IsValid s
    → Handled (e ∷ []) s (handle_event e (new, s)).1
unfolding handle_event maybe
handle_event-Handled e new s v = elim (Bool-cases (is_connection s e)) [
  | inl c ↦
      rw (c, handle_event)
        (record {
          valid = v;
          keeps = Keeps-refl s;
          recorded = (
            record {
              rx = λ c' h. absurd (ground (arith, c, c'));
              tx = λ c' h. absurd (ground (arith, c, c'));
              dx = λ c' h. absurd (ground (arith, c, c'));
            },
            tt,
          );
        })
  | inr c ↦
      rw (c, handle_event)
        (record {
          valid = record {
            rx = maybe-Distinct e.is_in e.socket s.rx_sockets v.rx;
            tx = maybe-Distinct e.is_out e.socket s.tx_sockets v.tx;
            dx = maybe-Distinct e.is_lost e.socket s.dx_sockets v.dx;
          };
          keeps = record {
            listener = refl;
            rx = maybe-keeps e.is_in e.socket s.rx_sockets;
            tx = maybe-keeps e.is_out e.socket s.tx_sockets;
            dx = maybe-keeps e.is_lost e.socket s.dx_sockets;
          };
          recorded = (
            record {
              rx = λ c' h. maybe-Has e.is_in e.socket s.rx_sockets h;
              tx = λ c' h. maybe-Has e.is_out e.socket s.tx_sockets h;
              dx = λ c' h. maybe-Has e.is_lost e.socket s.dx_sockets h;
            },
            tt,
          );
        })
]
