-- ===== src/Md5/Fed.antt =====
-- Hashers that have got a message in pieces (utils/md5.cc).
use service_control_client_c.Prelude.{
  ◌≡◌, refl, sym, ap, ◌∙◌, false, List, [], ◌∷◌, ◌++◌, append_assoc, append-nil, Text,
}
use service_control_client_c.Md5.{OpenSsl, fed, message, Md5, new_md5, update, digest}

fed-snoc {ℓ} :
    {C : Type ℓ} (step : Text → C → C) (c : C) (xs : List Text) (x : Text)
    → fed step c (xs ++ (x ∷ [])) ≡ step x (fed step c xs)
fed-snoc step c [] x = refl
fed-snoc step c (y ∷ xs) x = fed-snoc step (step y c) xs x

message-snoc : (xs : List Text) (x : Text) → message (xs ++ (x ∷ [])) ≡ message xs ++ x
message-snoc [] x = append-nil x
message-snoc (y ∷ xs) x = ap (λ l. y ++ l) (message-snoc xs x) ∙ sym (append_assoc y (message xs) x)

module _ (ssl : OpenSsl) where
  -- The hasher has got the message, in some pieces, and has not been asked for its digest.
  pub record IsFed (text : Text) (m : Md5 ssl) : Type 0 where
    pub pieces : List Text
    pub context : m.ctx ≡ fed ssl.update ssl.init pieces
    pub whole : message pieces ≡ text
    pub open_still : m.finalized ≡ false

  pub new_md5-IsFed : IsFed [] (new_md5 ssl)
  unfolding new_md5
  new_md5-IsFed = record { pieces = []; context = refl; whole = refl; open_still = refl }

  pub update-IsFed :
      (x text : Text) (m : Md5 ssl) → IsFed text m → IsFed (text ++ x) (update ssl x m)
  unfolding update
  update-IsFed x text m h = record {
    pieces = h.pieces ++ (x ∷ []);
    context = ap (ssl.update x) h.context ∙ sym (fed-snoc ssl.update ssl.init h.pieces x);
    whole = message-snoc h.pieces x ∙ ap (λ t. t ++ x) h.whole;
    open_still = h.open_still;
  }

  -- The digest is the hash of the message, and is the same when it is asked for again.
  pub digest-IsFed :
      (text : Text) (m : Md5 ssl)
      → IsFed text m
      → ((digest ssl m).1 ≡ ssl.hash text) × ((digest ssl (digest ssl m).0).1 ≡ ssl.hash text)
  unfolding digest
  digest-IsFed text m h =
      let e : (ssl.final m.ctx).0 ≡ ssl.hash text =
        ap (λ c. (ssl.final c).0) h.context ∙ (ssl.streams h.pieces ∙ ap ssl.hash h.whole) in
      rw h.open_still (e, e)
