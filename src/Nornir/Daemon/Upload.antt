-- ===== src/Nornir/Daemon/Upload.antt =====
-- The upload of a trained model through the client, by the fate of its request.
use mathlib.Core.List.{Mem, mem-cons_self, mem-cons_of_mem}
use grimnir.Base.{
  ℕ, ◌≡◌, refl, false, ◌==◌, Option, some, List, [], ◌∷◌, ◌++◌, map, Str, codes, Reply, ok, http,
}
use grimnir.Freki.Jobs.{TrainingJob}
use grimnir.Freki.Models
use grimnir.Freki.Models.{Registry, ModelOut, UploadForm}
use grimnir.Freki.Models.Upload.{upload_model-ok, upload_model-stored, upload_model-codes}
use grimnir.Nornir.Client.{
  Outcome, done, freki_error, json, request, FrekiClient, upload_model, Backend, Fate, delivered,
  request_lost, response_lost, Setting, sent, on_registry, freki,
}
use grimnir.Nornir.Daemon.Calls.{Stored}

mem_last : {A : Type 0} (a : A) (xs : List A) → Mem a (xs ++ (a ∷ []))
mem_last a [] = mem-cons_self
mem_last a (x ∷ xs) = mem-cons_of_mem x (mem_last a xs)

module _ {S J : Type 0} (setting : Setting S J) (k : ℕ) where
  -- The endpoint stores what it accepts.
  accepted-Stored :
      (provided : Option Str) (now : ℕ) (form : UploadForm) (jobs : List ℕ) (t : Registry J)
      (out : ModelOut J)
      → form.training_job_id ≡ some k
      → (Models.upload_model setting.json_loads setting.is_object setting.valid_config
          setting.upload_secret provided now form jobs t).1
        ≡ ok out
      → Stored k form.file
          (Models.upload_model setting.json_loads setting.is_object setting.valid_config
            setting.upload_secret provided now form jobs t).0
  accepted-Stored provided now form jobs t out named e =
      let (m, f, u) =
        upload_model-ok setting.json_loads setting.is_object setting.valid_config
          setting.upload_secret provided now form jobs t out e in
      rw
        (upload_model-stored setting.json_loads setting.is_object setting.valid_config
          setting.upload_secret provided now form jobs t m f u)
        (_, mem_last _ t.rows, named, refl)

  -- What Freki's endpoint answers to a form that is sent from a state, others moving first.
  abbrev pub endpoint_reply : FrekiClient → UploadForm → Backend S J → Reply (ModelOut J)
  endpoint_reply client form w =
      let w' = setting.others w.served w in
      (Models.upload_model setting.json_loads setting.is_object setting.valid_config
        setting.upload_secret client.model_upload_shared_secret (setting.now w'.served) form
        (map (λ (j : TrainingJob S). j.id) w'.db.jobs) w'.registry).1

  -- What a delivered answer is to the client.
  abbrev pub answer_of : Reply (ModelOut J) → Outcome (ModelOut J)
  answer_of (ok out) = done out
  answer_of (http c) = freki_error (record {
    method = codes "POST";
    url = codes "/api/models";
    status = c;
    body = setting.text c;
  })

  -- The state after an upload and how it was answered: the jobs are untouched, an accepted model is
  -- stored, and a delivered answer is the endpoint's.
  pub record Uploaded (bytes : List ℕ) (f : Fate) (w : Backend S J)
      (x : Outcome (ModelOut J) × Backend S J) (reply : Reply (ModelOut J)) : Type 0 where
    pub same_db : x.1.db ≡ w.db
    pub stores : (out : ModelOut J) → x.0 ≡ done out → Stored k bytes x.1.registry
    pub answers : f ≡ delivered → x.0 ≡ answer_of reply

  upload-Uploaded :
      (bytes : List ℕ) (f : Fate) (w : Backend S J) (x : Registry J × Reply (ModelOut J))
      → ((out : ModelOut J) → x.1 ≡ ok out → Stored k bytes x.0)
      → ((c : ℕ) → x.1 ≡ http c → (201 == c) ≡ false)
      → Uploaded bytes f w
          (json (
            request
              (codes "POST")
              (codes "/api/models")
              (201 ∷ [])
              (sent setting f w (on_registry setting 201 w x))))
          x.1
  upload-Uploaded bytes delivered w (t, ok a) stores refusal = record {
    same_db = refl;
    stores = λ out e. stores a refl;
    answers = λ e. refl;
  }
  upload-Uploaded bytes delivered w (t, http c) stores refusal =
      let other = refusal c refl in
      rw other (record { same_db = refl; stores = λ out e. absurd (cc e); answers = λ e. refl })
  upload-Uploaded bytes request_lost w x stores refusal = record {
    same_db = refl;
    stores = λ out e. absurd (cc e);
    answers = λ e. absurd (cc e);
  }
  upload-Uploaded bytes response_lost w x stores refusal = record {
    same_db = refl;
    stores = λ out e. absurd (cc e);
    answers = λ e. absurd (cc e);
  }

  pub upload_model-Uploaded :
      (str_int : ℕ → Str) (client : FrekiClient) (form : UploadForm) (w : Backend S J)
      → form.training_job_id ≡ some k
      → Uploaded form.file
          (setting.fate w.served)
          (setting.others w.served w)
          (upload_model (freki setting) str_int client form w)
          (endpoint_reply client form w)
  unfolding upload_model
  upload_model-Uploaded str_int client form w named =
      let w' = setting.others w.served w in
      upload-Uploaded form.file (setting.fate w.served) w' _
        (λ out.
          accepted-Stored client.model_upload_shared_secret (setting.now w'.served) form _
            w'.registry out named)
        (upload_model-codes setting.json_loads setting.is_object setting.valid_config
          setting.upload_secret client.model_upload_shared_secret (setting.now w'.served) form _
          w'.registry)
