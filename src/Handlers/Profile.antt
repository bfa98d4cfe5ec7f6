-- ===== src/Handlers/Profile.antt =====
-- Patches of a profile, and the conversations that it owns.
pub mod Patch
use srv.Prelude.{
  ite, Bool, true, false, Option, none, some, List, [], ◌∷◌, ◌++◌, Error, ok, err, Text, codes,
  text_discrete, Dict, lookup, if◌then◌else◌,
}
use srv.Storage.Types.{Profile}
use srv.Storage.Profile.{
  save_profile, get_owned_conversation_id_by_name, get_owned_conversations_name_to_id_map,
}
use srv.Storage.Users.{create_new_owned_conversation, delete_owned_conversation}
use srv.Lifecycle.Session.{Backend}
use srv.Handlers.Http.{
  Request, Web, Given, Http, nothing, name_to_id, json_string, json_conversation, answer, stored,
  error_text, error_of, status_error_text, status_error_of,
}
use srv.Handlers.Auth.{is_empty, authenticated}

-- The value that is sent for a field, when it is one and differs from the field's.
unfoldable pub patch_of : Text → Text → Dict Text → Option Text
unfolding lookup
patch_of field old updates = elim (lookup field updates) [
  | none ↦ none
  | some t ↦ if is_empty t then none else ite (text_discrete t old) none (some t)
]

-- The profile with a new name and a new secret, or none when there is neither.
abbrev pub with_updates : Option Text → Option Text → Profile → Option Profile
with_updates none none p = none
with_updates (some n) none p = some (record p { name = n })
with_updates none (some s) p = some (record p { secret = s })
with_updates (some n) (some s) p = some (record p { name = n; secret = s })

-- The profile to save, or none when nothing is updated.
unfoldable pub patched : Dict Text → Profile → Option Profile
unfolding patch_of
patched updates p =
    with_updates (patch_of (codes "name") p.name updates)
      (patch_of (codes "secret") p.secret updates) p

module _ {b : Backend} (web : Web) (g : Given) where
  -- What the handlers do when the request is admitted.
  unfoldable pub save_patches : Dict Text → Profile → Http b → Http b
  unfolding patched
  save_patches updates p s = elim (patched updates p) [
    | none ↦ answer 204 nothing s
    | some q ↦
        let (res, t) = stored (save_profile b.store q) s in
        elim res [ err e ↦ answer 500 (error_of e) t | ok _ ↦ answer 204 nothing t ]
  ]

  unfoldable pub list_owned : Request → Http b → Http b
  list_owned c s =
      let (res, t) = stored (get_owned_conversations_name_to_id_map b.store c.profile_id) s in
      elim res [
        | err e ↦ answer 500 (status_error_of e) t
        | ok entries ↦ answer 200 (name_to_id entries) t
      ]

  -- When there is no such conversation, that is answered, and then the empty id is.
  unfoldable pub find_owned : Request → Http b → Http b
  find_owned c s =
      if is_empty c.name
      then answer 400 (status_error_text (codes "empty whisper conversation name")) s
      else (let (res, t) =
            stored (get_owned_conversation_id_by_name b.store c.profile_id c.name) s in
          elim res [
            | err e ↦ answer 500 (status_error_of e) t
            | ok id ↦ answer 200 (json_string id) (
                if is_empty id
                then answer 404 (status_error_text (codes "whisper conversation not found")) t
                else t)
          ])

  -- A conversation with a name that the profile does not use yet.
  unfoldable pub create_owned : Text → Text → Http b → Http b
  create_owned profile_id name s =
      let (found, s1) = stored (get_owned_conversation_id_by_name b.store profile_id name) s in
      elim found [
        | err e ↦ answer 500 (status_error_of e) s1
        | ok id ↦
            if is_empty id
            then (let (created, s2) =
                  stored
                    (create_new_owned_conversation b.store g.random_conversation profile_id name)
                    s1 in
                elim created [
                  | err e ↦ answer 500 (status_error_of e) s2
                  | ok convo ↦ answer 201 (json_conversation convo) s2
                ])
            else answer 409 (status_error_text (codes "whisper conversation already exists")) s1
      ]

  -- The framework answers for an error of its decoder, the handler does too, and goes on when
  -- there is a name.
  unfoldable pub create_bound : Request → Http b → Http b
  unfolding create_owned
  create_bound c s =
      let (name, e) = web.bind c.body in
      let bound : Http b = elim e [
        | none ↦ s
        | some x ↦ answer 400 (status_error_of x) (answer 400 nothing s)
      ] in
      if is_empty name
      then answer 400 (status_error_text (codes "empty whisper conversation name")) bound
      else create_owned c.profile_id name bound

  unfoldable pub delete_owned : Request → Http b → Http b
  delete_owned c s =
      if is_empty c.name
      then answer 400 (status_error_text (codes "empty whisper conversation name")) s
      else (let (found, t) =
            stored (get_owned_conversation_id_by_name b.store c.profile_id c.name) s in
          elim found [
            | err e ↦ answer 500 (status_error_of e) t
            | ok id ↦
                if is_empty id
                then answer 404
                    (status_error_text
                      (codes "whisper conversation " ++ (web.quoted c.name ++ codes " not found")))
                    t
                else (let (res, u) =
                      stored (delete_owned_conversation b.store c.profile_id c.name) t in
                    elim res [
                      | err e ↦ answer 500 (status_error_of e) u
                      | ok _ ↦ answer 204 nothing u
                    ])
          ])

  -- The name and the secret that the profile did not have are saved.
  unfoldable pub patch_profile : Request → Http b → Http b
  unfolding save_patches authenticated
  patch_profile c s = elim (web.bind_map c.body) [
    | err e ↦ answer 400 (error_text (codes "Invalid request format")) s
    | ok updates ↦ authenticated web g c (save_patches updates) s
  ]

  unfoldable pub get_whisper_conversations : Request → Http b → Http b
  unfolding authenticated list_owned
  get_whisper_conversations c = authenticated web g c (λ p. list_owned c)

  unfoldable pub get_whisper_conversation_id : Request → Http b → Http b
  unfolding authenticated find_owned
  get_whisper_conversation_id c = authenticated web g c (λ p. find_owned c)

  unfoldable pub post_whisper_conversation : Request → Http b → Http b
  unfolding authenticated create_bound
  post_whisper_conversation c = authenticated web g c (λ p. create_bound c)

  unfoldable pub delete_whisper_conversation : Request → Http b → Http b
  unfolding authenticated delete_owned
  delete_whisper_conversation c = authenticated web g c (λ p. delete_owned c)
