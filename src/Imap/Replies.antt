-- ===== src/Imap/Replies.antt =====
-- A chain of replies of a server that ends with an answer (src/lenovmail/providers/imap_ops.py).
use lenovmail.Prelude.{◌≡◌, refl}
use lenovmail.Imap.{Reply, got, transient, failed, ◌>>=◌}

pub bind-got :
    {A B : Type 0} (m : Reply A) (f : A → Reply B) (b : B)
    → (m >>= f) ≡ got b
    → (a : A) × (m ≡ got a) × (f a ≡ got b)
bind-got (got a) f b h = (a, refl, h)
bind-got (transient e) f b h = absurd (cc)
bind-got (failed e) f b h = absurd (cc)

abbrev pub from_got : {A : Type 0} → A → Reply A → A
from_got d (got a) = a
from_got d _ = d
