-- ===== src/Canopen/Pdo/Diff.antt =====
-- DiffPdoMapping finds nothing exactly when the mappings are the same.
use new_robot.Base.{
  ℕ, ◌+◌, ◌≡◌, refl, ap, ◌∙◌, ◌↔◌, String, Bool, true, false, not, ◌==◌, List, [], ◌∷◌, ◌++◌,
  length, if◌then◌else◌, arith,
}
use new_robot.Canopen.Pdo.{
  PdoChannel, Four, PdoMapping, entry_diffs, channel_diffs, channels_diffs, diff_pdo_mapping,
}

no-++ : (xs ys : List String) → xs ++ ys ≡ [] → (xs ≡ []) × (ys ≡ [])
no-++ [] ys h = (refl, h)
no-++ (x ∷ xs) ys h = absurd (cc h)

entry_diffs-none :
    (name : String) (i j : ℕ) (es bs : List ℕ)
    → length es ≡ length bs
    → entry_diffs name i j es bs ≡ []
    → es ≡ bs
unfolding entry_diffs
entry_diffs-none name i j [] [] l h = refl
entry_diffs-none name i j [] (a ∷ bs) l h = absurd (omega (arith, l))
entry_diffs-none name i j (e ∷ es) [] l h = absurd (omega (arith, l))
entry_diffs-none name i j (e ∷ es) (a ∷ bs) l h =
    ground (arith, h, entry_diffs-none name i (j + 1) es bs (omega (arith, l)))

entry_diffs-same : (name : String) (i j : ℕ) (es : List ℕ) → entry_diffs name i j es es ≡ []
unfolding entry_diffs
entry_diffs-same name i j [] = refl
entry_diffs-same name i j (e ∷ es) = ground (arith, entry_diffs-same name i (j + 1) es)

abbrev channel : ℕ → List ℕ → PdoChannel
channel n es = record { cob_id = n; entries = es }

channel_same : (e a : PdoChannel) → e.cob_id ≡ a.cob_id → e.entries ≡ a.entries → e ≡ a
channel_same e a p q =
    ap (λ (n : ℕ). channel n e.entries) p ∙ ap (λ (es : List ℕ). channel a.cob_id es) q

abbrev four {ℓ} : {A : Type ℓ} → A → A → A → A → Four A
four a b c d = record { c0 = a; c1 = b; c2 = c; c3 = d }

four_same {ℓ} :
    {A : Type ℓ} (e a : Four A) → e.c0 ≡ a.c0 → e.c1 ≡ a.c1 → e.c2 ≡ a.c2 → e.c3 ≡ a.c3 → e ≡ a
four_same {A = A} e a p q r s =
    ap (λ (x : A). four x e.c1 e.c2 e.c3) p
    ∙ ap (λ (x : A). four a.c0 x e.c2 e.c3) q
    ∙ ap (λ (x : A). four a.c0 a.c1 x e.c3) r
    ∙ ap (λ (x : A). four a.c0 a.c1 a.c2 x) s

unless-none : (b : Bool) (text : String) → (if not b then text ∷ [] else []) ≡ [] → b ≡ true
unless-none true text h = refl
unless-none false text h = absurd (cc h)

same_number : (m n : ℕ) → (m == n) ≡ true → m ≡ n
same_number m n h = ground (arith, h)

channel_diffs-none :
    (name : String) (i : ℕ) (e a : PdoChannel) → channel_diffs name i e a ≡ [] → e ≡ a
unfolding channel_diffs
channel_diffs-none name i e a h =
    let (p, rest) = no-++ _ _ h in
    let (q, r) = no-++ _ _ rest in
    let cob = same_number e.cob_id a.cob_id (unless-none _ _ p) in
    let size = same_number (length e.entries) (length a.entries) (unless-none _ _ q) in
    channel_same e a cob (entry_diffs-none name i 0 e.entries a.entries size r)

channel_diffs-same : (name : String) (i : ℕ) (e : PdoChannel) → channel_diffs name i e e ≡ []
unfolding channel_diffs
channel_diffs-same name i e = ground (arith, entry_diffs-same name i 0 e.entries)

channels_diffs-none : (name : String) (e a : Four PdoChannel) → channels_diffs name e a ≡ [] → e ≡ a
unfolding channels_diffs
channels_diffs-none name e a h =
    let (p, h1) = no-++ _ _ h in
    let (q, h2) = no-++ _ _ h1 in
    let (r, s) = no-++ _ _ h2 in
    four_same e a (channel_diffs-none name 0 e.c0 a.c0 p) (channel_diffs-none name 1 e.c1 a.c1 q)
      (channel_diffs-none name 2 e.c2 a.c2 r) (channel_diffs-none name 3 e.c3 a.c3 s)

channels_diffs-same : (name : String) (e : Four PdoChannel) → channels_diffs name e e ≡ []
unfolding channels_diffs
channels_diffs-same name e =
    rw
      (
        channel_diffs-same name 0 e.c0,
        channel_diffs-same name 1 e.c1,
        channel_diffs-same name 2 e.c2,
        channel_diffs-same name 3 e.c3,
      )
      refl

abbrev mapping : Four PdoChannel → Four PdoChannel → PdoMapping
mapping r t = record { rpdo = r; tpdo = t }

diff-same : (e : PdoMapping) → diff_pdo_mapping e e ≡ []
unfolding diff_pdo_mapping
diff-same e = rw (channels_diffs-same "RPDO" e.rpdo, channels_diffs-same "TPDO" e.tpdo) refl

diff-none : (e a : PdoMapping) → diff_pdo_mapping e a ≡ [] → e ≡ a
unfolding diff_pdo_mapping
diff-none e a h =
    let (p, q) = no-++ _ _ h in
    ap (λ (r : Four PdoChannel). mapping r e.tpdo) (channels_diffs-none "RPDO" e.rpdo a.rpdo p)
    ∙ ap (λ (t : Four PdoChannel). mapping a.rpdo t) (channels_diffs-none "TPDO" e.tpdo a.tpdo q)

-- The comparison finds no difference exactly when the two mappings are the same: COB-IDs, numbers
-- of entries and entries of all eight channels.
pub diff_pdo_mapping-none : (e a : PdoMapping) → (diff_pdo_mapping e a ≡ []) ↔ (e ≡ a)
diff_pdo_mapping-none e a = (diff-none e a, λ p. rw p (diff-same a))
