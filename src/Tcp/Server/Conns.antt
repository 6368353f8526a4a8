-- ===== src/Tcp/Server/Conns.antt =====
-- Lists of connections of src/tcp_raw.cpp, of which one changes at a time.
use ip2socks.Common.{◌<◌, ◌≡◌, ◌⊎◌, ◌∙◌, sym, inl, inr, none, List, [], ◌∷◌, ◌++◌, All}
use ip2socks.Tcp.Accepting.{closes}
use ip2socks.Tcp.Flows.{down_in, up_out}
use ip2socks.Tcp.Invariant.{IsValid}
use ip2socks.Tcp.Owning.{pcb_closes, Owns}
use ip2socks.Tcp.Server.{Conn, IsFree}

-- A connection that holds the invariants since it was accepted.
pub record IsSound (k : Conn) : Type 0 where
  pub positive : 0 < k.fd
  pub valid : IsValid (down_in k.shaken) (up_out k.shaken) k.pcb k.world
  pub owns : Owns k.pcb k.fd (closes k.shaken) (pcb_closes k.shaken) k.world

-- One is gone, or their sockets have different descriptors.
abbrev pub Apart : Conn → Conn → Type 0
Apart k j = (k.world.es ≡ none) ⊎ IsFree k.fd j

abbrev pub Distinct : List Conn → Type 0
Distinct [] = Unit {0}
Distinct (k ∷ ks) = All (Apart k) ks × Distinct ks

-- `k'` is `k` later: with the same descriptor, and gone if it was.
pub record IsLater (k k' : Conn) : Type 0 where
  pub same_fd : k'.fd ≡ k.fd
  pub stays_gone : k.world.es ≡ none → k'.world.es ≡ none

pub All-middle :
    (P : Conn → Type 0) (before after : List Conn) (k k' : Conn)
    → (P k → P k')
    → All P (before ++ (k ∷ after))
    → All P (before ++ (k' ∷ after))
All-middle P [] after k k' f h = (f h.0, h.1)
All-middle P (j ∷ before) after k k' f h = (h.0, All-middle P before after k k' f h.1)

pub All-each :
    {P Q : Conn → Type 0} → ((k : Conn) → P k → Q k) → (ks : List Conn) → All P ks → All Q ks
All-each f [] h = tt
All-each f (k ∷ ks) h = (f k h.0, All-each f ks h.1)

pub All-at :
    (P : Conn → Type 0) (before after : List Conn) (k : Conn) → All P (before ++ (k ∷ after)) → P k
All-at P [] after k h = h.0
All-at P (j ∷ before) after k h = All-at P before after k h.1

module _ {k k' : Conn} (later : IsLater k k') where
  Apart-left : (j : Conn) → Apart k j → Apart k' j
  Apart-left j (inl e) = inl (later.stays_gone e)
  Apart-left j (inr (inl e)) = inr (inl e)
  Apart-left j (inr (inr n)) = inr (inr (λ e. n (e ∙ later.same_fd)))

  Apart-right : (j : Conn) → Apart j k → Apart j k'
  Apart-right j (inl e) = inl e
  Apart-right j (inr (inl e)) = inr (inl (later.stays_gone e))
  Apart-right j (inr (inr n)) = inr (inr (λ e. n (sym later.same_fd ∙ e)))

  pub Distinct-middle :
      (before after : List Conn)
      → Distinct (before ++ (k ∷ after))
      → Distinct (before ++ (k' ∷ after))
  Distinct-middle [] after h = (All-each Apart-left after h.0, h.1)
  Distinct-middle (j ∷ before) after h =
      (All-middle (Apart j) before after k k' (Apart-right j) h.0, Distinct-middle before after h.1)
