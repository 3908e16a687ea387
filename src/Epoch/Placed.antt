-- ===== src/Epoch/Placed.antt =====
-- Where the threads are, when an epoch is claimed or made.
use multiprocessor_programmi.Prelude.{ℕ, suc, ◌≡◌, refl, List, [], ◌∷◌, All, arith}
use multiprocessor_programmi.Epoch.{
  Worker, outside, joining, retracting, inside, adding, pushing, IsOutside,
}
use multiprocessor_programmi.Epoch.Invariant.{visits, total, IsPlaced}

-- No thread counts in an epoch that `ws` has not left: the threads in epochs are in later ones.
pub All-later :
    (head current : ℕ) (ws : List Worker)
    → total head ws ≡ 0
    → All (IsPlaced head current) ws
    → All (IsPlaced (suc head) current) ws
All-later head current [] z h = tt
All-later head current (w ∷ ws) z h =
    (moved w (omega (arith, z)) h.0, All-later head current ws (omega (arith, z)) h.1)
  where
    moved :
        (w : Worker) → visits head w ≡ 0 → IsPlaced head current w → IsPlaced (suc head) current w
    moved outside z h = tt
    moved (joining p) z h = h
    moved (retracting p) z h = h
    moved (inside e) z h = ground (arith, h.0, h.1)
    moved (adding e p address node_p) z h = ground (arith, h.0, h.1, h.2)
    moved (pushing e p address node_p next_p) z h = ground (arith, h.0, h.1, h.2)

-- Nor in an epoch that is not made yet.
pub none_later :
    (low current : ℕ) (ws : List Worker)
    → All (IsPlaced low current) ws
    → total (suc current) ws ≡ 0
none_later low current [] h = refl
none_later low current (w ∷ ws) h = omega (arith, here w h.0, none_later low current ws h.1)
  where
    here : (w : Worker) → IsPlaced low current w → visits (suc current) w ≡ 0
    here outside h = refl
    here (joining p) h = refl
    here (retracting p) h = ground (arith, h)
    here (inside e) h = ground (arith, h.0, h.1)
    here (adding e p address node_p) h = ground (arith, h.0, h.1, h.2)
    here (pushing e p address node_p next_p) h = ground (arith, h.0, h.1, h.2)

pub wider :
    (low current : ℕ) (ws : List Worker)
    → All (IsPlaced low current) ws
    → All (IsPlaced low (suc current)) ws
wider low current [] h = tt
wider low current (w ∷ ws) h = (here w h.0, wider low current ws h.1)
  where
    here : (w : Worker) → IsPlaced low current w → IsPlaced low (suc current) w
    here outside h = tt
    here (joining p) h = (h.0, omega (arith, h.1))
    here (retracting p) h = omega (arith, h)
    here (inside e) h = (h.0, omega (arith, h.1))
    here (adding e p address node_p) h = (h.0, h.1, omega (arith, h.2))
    here (pushing e p address node_p next_p) h = (h.0, h.1, omega (arith, h.2))

pub outside-IsPlaced : (ws : List Worker) → IsOutside ws → All (IsPlaced 1 1) ws
outside-IsPlaced [] h = tt
outside-IsPlaced (w ∷ ws) h = (rw (h.0) tt, outside-IsPlaced ws h.1)

pub outside_total : (c : ℕ) (ws : List Worker) → IsOutside ws → total c ws ≡ 0
outside_total c [] h = refl
outside_total c (w ∷ ws) h = rw (h.0) (omega (arith, outside_total c ws h.1))
