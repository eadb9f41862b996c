-- ===== src/Provider/Key/Found.antt =====
-- LunaPqcGen and then LunaPqcFind: the blob of a generated key pair leads back to its handles.
use luna_openssl_provider.Prelude.{
  ℕ, ◌≡◌, ◌≢◌, ◌⊎◌, refl, ap, ◌∙◌, Bool, true, false, Option, some, List, [], ◌∷◌, Bytes, length,
  arith, Option-cases, inl, inr, not, is_zero, if◌then◌else◌,
}
use luna_openssl_provider.Cryptoki.{Cryptoki, ckr_ok}
use luna_openssl_provider.Engine.Config.{Config, luna_get_token_object}
use luna_openssl_provider.Engine.Session.Context.{luna_context_set_last_error}
use luna_openssl_provider.Provider.Algorithms.{Alg, KeyCtx, luna_lookup_alg_name}
use luna_openssl_provider.Provider.Algorithms.Kept.{luna_lookup_alg_name-fails}
use luna_openssl_provider.Provider.Blob.RoundTrip.{GivesLength}
use luna_openssl_provider.Provider.Blob.Labels.{luna_pqc_decode_template-luna_pqc_encode_template}
use luna_openssl_provider.Provider.Blob.{
  Attribute, Template, cka_label, set_labels, luna_pqc_decode_template, luna_pqc_encode_template,
  luna_pqc_fill_template, luna_pqc_fill_template_ex,
}
use luna_openssl_provider.Provider.Blob.Encoding.{RandRules}
use luna_openssl_provider.Provider.Blob.Filling.{fill-kept_labels}
use luna_openssl_provider.Provider.Key.State.{Work, KeyCalls}
use luna_openssl_provider.Provider.Key.Find.{luna_pqc_find, blank_template}
use luna_openssl_provider.Provider.Key.Gen.{generate, luna_pqc_gen, gen_call, or_else}
use luna_openssl_provider.Provider.Key.Objects.{
  ObjectRules, PairFound, PairMissed, find_labels-PairFound,
}

abbrev label_of : Template → Attribute
label_of p = record { attr_type = cka_label; value = p.label.value }

fill_labels :
    (rand_bytes : ℕ → Option Bytes) (n : ℕ) (p q : Template)
    → luna_pqc_fill_template rand_bytes blank_template blank_template n ≡ some (p, q)
    → (p.label ≡ label_of p) × (q.label ≡ label_of q) × (p.label ≢ q.label)
unfolding luna_pqc_fill_template luna_pqc_fill_template_ex
fill_labels rand_bytes n p q e = elim (Option-cases (rand_bytes 16)) [
  | inl none_given ↦ absurd (ground (arith, e, none_given))
  | inr (id, given) ↦ ground (arith, e, given)
]

module _ (c : Cryptoki) (calls : KeyCalls c) (rules : ObjectRules c calls) (tab : List Alg) where
  module _ (cfg : Config) (rand_label rand_pad : ℕ → Option Bytes) where
    abbrev key_bytes : Work c.Token → ℕ
    key_bytes w = length (or_else w.key.privkey [])

    abbrev filled : Work c.Token → Option (Template × Template)
    filled w = luna_pqc_fill_template rand_label blank_template blank_template (key_bytes w)

    -- A generation that succeeds, taken apart.
    record Generated (p q : Template) (w w1 : Work c.Token) : Type 0 where
      blob : Bytes
      mech : ℕ
      public_rest : List Attribute
      private_rest : List Attribute
      encoded : luna_pqc_encode_template rand_pad p q (or_else w.key.privkey []) ≡ some blob
      kept : w1.key.privkey ≡ some blob
      result :
          let r =
            calls.c_generate_key_pair w.sess.h_session mech
              (p.label ∷ public_rest)
              (q.label ∷ private_rest)
              w.globals.token in
          (r.0 ≡ ckr_ok)
          × (w1.key.h_public ≡ r.1)
          × (w1.key.h_private ≡ r.2)
          × (w1.globals.token ≡ r.3)

    generate-Generated :
        (a : Alg) (p q : Template) (is_kem is_ecx : Bool) (w : Work c.Token) {w1 : Work c.Token}
        → generate cfg c calls tab rand_label rand_pad a p q is_kem is_ecx w ≡ some (ckr_ok, w1)
        → Generated p q w w1
    unfolding generate luna_context_set_last_error
    generate-Generated a p q is_kem is_ecx w {w1} e =
        let token_object = if is_kem then false else not (is_zero (luna_get_token_object cfg)) in
        let call = gen_call cfg a w.key.alg.alg_name is_kem is_ecx token_object in
        elim (Option-cases (luna_pqc_encode_template rand_pad p q (or_else w.key.privkey []))) [
          | inl failed ↦ absurd (ground (arith, e, failed))
          | inr (blob, encoded) ↦ record {
            blob = blob;
            mech = call.mech_gen;
            public_rest = p.ident ∷ call.public_rest;
            private_rest = q.ident ∷ call.private_rest;
            encoded = encoded;
            kept = ground (arith, e, encoded);
            result = ground (arith, e, encoded);
          }
        ]

    gen-Generated :
        (is_kem is_ecx : Bool) (w : Work c.Token) {w1 : Work c.Token}
        → luna_pqc_gen cfg c calls tab rand_label rand_pad is_kem is_ecx w ≡ some (ckr_ok, w1)
        → (p : Template) × (q : Template) × (filled w ≡ some (p, q)) × Generated p q w w1
    unfolding luna_pqc_gen
    gen-Generated is_kem is_ecx w {w1} e =
        let k : KeyCtx = record w.key.alg { is_kem = is_kem } in
        let look = luna_lookup_alg_name tab k in
        let w0 : Work c.Token = record w { key = record w.key { alg = look.2 } } in
        elim (Option-cases look.1) [
          | inl missing ↦
              absurd (ground (arith, e, missing, luna_lookup_alg_name-fails tab k missing))
          | inr (a, listed) ↦ elim (Option-cases (filled w)) [
            | inl failed ↦ absurd (ground (arith, e, listed, failed))
            | inr ((p, q), fill) ↦
                let made : generate cfg c calls tab rand_label rand_pad a p q is_kem is_ecx w0
                    ≡ some (ckr_ok, w1) =
                  ground (arith, e, listed, fill) in
                let g = generate-Generated a p q is_kem is_ecx w0 made in
                (
                  p,
                  q,
                  fill,
                  record {
                    blob = g.blob;
                    mech = g.mech;
                    public_rest = g.public_rest;
                    private_rest = g.private_rest;
                    encoded = g.encoded;
                    kept = g.kept;
                    result = g.result;
                  },
                )
          ]
        ]

    -- The labels of the blob name the new objects.
    Generated-Names :
        (p q : Template) (w w1 : Work c.Token)
        → filled w ≡ some (p, q)
        → Generated p q w w1
        → rules.Unused w.globals.token p.label × rules.Unused w.globals.token q.label
        → rules.Names w1.globals.token (label_of p) w1.key.h_public
          × rules.Names w1.globals.token (label_of q) w1.key.h_private
    Generated-Names p q w w1 fill g (free, free') =
        let (p_label, q_label, apart) = fill_labels rand_label (key_bytes w) p q fill in
        let (ok, h_public_eq, h_private_eq, token_eq) = g.result in
        let (named, named') =
          rules.generated w.sess.h_session g.mech p.label q.label g.public_rest g.private_rest
            w.globals.token free free' apart ok in
        (rw (token_eq, h_public_eq, ← p_label) named, rw (token_eq, h_private_eq, ← q_label) named')

    module _ (random : RandRules rand_label) (gives : GivesLength rand_pad) where
      -- LunaPqcDecodeTemplate on the blob of a generated key pair.
      decode-Generated :
          (p q : Template) (w w1 : Work c.Token)
          → filled w ≡ some (p, q)
          → Generated p q w w1
          → luna_pqc_decode_template blank_template blank_template w1.key.privkey
            ≡ set_labels blank_template blank_template p.label.value q.label.value
      decode-Generated p q w w1 fill g =
          let (_, read) =
            luna_pqc_decode_template-luna_pqc_encode_template rand_pad gives p q blank_template
              blank_template refl (or_else w.key.privkey []) g.encoded in
          let same =
            fill-kept_labels random blank_template blank_template refl (key_bytes w) fill in
          rw g.kept (
            read
            ∙ ap (λ (l : Bytes × Bytes). set_labels blank_template blank_template l.0 l.1) same)

      -- When LunaPqcGen has made a key pair in a token that had no object with one of the new labels,
      -- the blob that it leaves for the private key is all that is needed to find the pair again:
      -- whichever key context has this blob and the name of an algorithm of the table, in a session
      -- that is open, LunaPqcFind succeeds as long as the labels name the two objects in the token, and
      -- gives the handles that C_GenerateKeyPair gave, with the count of the running library. The
      -- exception is that C_FindObjectsInit or C_FindObjects fails in that session: then it returns the
      -- code of that call, keeps the handles of the context and sets the count to 0.
      pub luna_pqc_gen-luna_pqc_find :
          (is_kem is_ecx : Bool) (w w2 : Work c.Token) {w1 : Work c.Token}
          → luna_pqc_gen cfg c calls tab rand_label rand_pad is_kem is_ecx w ≡ some (ckr_ok, w1)
          → ((p q : Template)
              → filled w ≡ some (p, q)
              → rules.Unused w.globals.token p.label × rules.Unused w.globals.token q.label)
          → w2.key.privkey ≡ w1.key.privkey
          → ((a : Attribute) (h : ℕ)
              → rules.Names w1.globals.token a h
              → rules.Names w2.globals.token a h)
          → rules.IsSession w2.globals.token w2.sess.h_session
          → (luna_lookup_alg_name tab w2.key.alg).0 ≡ ckr_ok
          → let r = luna_pqc_find c calls tab w2 in
            PairFound c calls rules w1.key.h_public w1.key.h_private w2.globals.init_count r
            ⊎ PairMissed c calls rules w2.sess.h_session w2.key.h_public w2.key.h_private r
      unfolding luna_pqc_find
      luna_pqc_gen-luna_pqc_find is_kem is_ecx w w2 {w1} e unused same_blob still open_ listed =
          let (p, q, fill, g) = gen-Generated is_kem is_ecx w e in
          let (named, named') = Generated-Names p q w w1 fill g (unused p q fill) in
          let read =
            ap (luna_pqc_decode_template blank_template blank_template) same_blob
            ∙ decode-Generated p q w w1 fill g in
          rw (luna_pqc_find, read)
            (find_labels-PairFound c calls rules tab (record blank_template { label = label_of p })
              (record blank_template { label = label_of q }) w1.key.h_public w1.key.h_private
              (record w2 { key = record w2.key { is_hardware = true } }) open_
              (still (label_of p) w1.key.h_public named)
              (still (label_of q) w1.key.h_private named') listed)
