-- ===== src/Forge/Http/Replies.antt =====
-- An answer with status 200 to a request of `getJSON` or `getOptional`.
use backup_git_repos.Base.{Text, List, Option, some, ◌≡◌, refl}
use backup_git_repos.Error.{ok}
use backup_git_repos.World.{World}
use backup_git_repos.Forge.Http.{Web, Url, Request, Response, get_with, json_value}

module _ (web : Web) {A : Type 0} (decode : Text → Option A) where
  -- A forge that answers a request with this value whenever it is asked, and does nothing else.
  abbrev pub Replies : Request → A → Type 0
  Replies request a =
      (w : World)
      → (r : Response) × (web.send request w ≡ (ok r, w))
        × (r.status ≡ 200)
        × (decode r.body ≡ some a)

  pub get_with-Replies :
      (headers : List (Text × Text)) (url : Url) (a : A) (w : World)
      → Replies (record { url = url; headers = headers }) a
      → get_with web headers decode url w ≡ (ok a, w)
  unfolding get_with json_value
  get_with-Replies headers url a w h =
      let (r, sent, good, decoded) = h w in rw (sent, good, decoded) refl
