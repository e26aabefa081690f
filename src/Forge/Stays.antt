-- ===== src/Forge/Stays.antt =====
-- internal/github, internal/gitlab, internal/forgejo: what the loops of the adapters leave alone.
pub mod Listing
pub mod GitHub
pub mod Forgejo
pub mod GitLab
use backup_git_repos.Base.{
  Text, text, ℕ, zero, suc, ◌+◌, List, [], ◌∷◌, ◌++◌, Option, none, some, refl, arith,
}
use backup_git_repos.FilePath.{FilePath}
use backup_git_repos.Error.{Result, ok, err}
use backup_git_repos.World.{World, Io, pure, wrapping, ◌>>=◌, ◌>>◌}
use backup_git_repos.World.Near.{Near, Near-trans, Stays, bind-Stays, wrapping-Stays, looking-Stays}
use backup_git_repos.Metadata.Write.{ReleaseAsset}
use backup_git_repos.Forge.Http.{Web, Request, Response, Url, get_with, json_value}
use backup_git_repos.Forge.Paging.{collect, keep_all, page_then, pages, next_then, linked_pages}
use backup_git_repos.Forge.Export.{
  linked_end, each, page_end, page_round, each_page, each_linked, gather, gather_end, gather_pages,
  download_all,
}

-- A request is answered without a change to the disk or to the environment.
abbrev pub SendKeeps : Web → Type 0
SendKeeps web = (q : FilePath) (req : Request) → Stays q (web.send req)

module _ {A B : Type 0} (q : FilePath) (one : A → World → Option B × World)
    (quiet : (a : A) (w : World) → Near q (one a w).1 w) where
  collect-Near : (items : List A) (w : World) → Near q (collect one items w).1 w
  unfolding collect
  collect-Near [] w = (refl, refl)
  collect-Near (a ∷ items) w =
      Near-trans q (collect one items (one a w).1).1 (one a w).1 w (collect-Near items (one a w).1)
        (quiet a w)

  page_then-Stays :
      (size : ℕ) (more : Io (List B)) (items : List A)
      → Stays q more
      → Stays q (page_then one size more items)
  unfolding page_then
  page_then-Stays size more items h = record {
    at = λ w.
        let w₁ = (collect one items w).1 in
        let seen = collect-Near items w in
        let rest = h.at w₁ in ground (arith, seen.0, seen.1, rest.0, rest.1);
  }

  pub pages-Stays :
      (fetch : ℕ → Io (List A)) (size fuel page : ℕ)
      → ((n : ℕ) → Stays q (fetch n))
      → Stays q (pages fetch one size fuel page)
  unfolding pages
  pages-Stays fetch size zero page h = record { at = λ w. (refl, refl) }
  pages-Stays fetch size (suc fuel) page h =
      let more = pages fetch one size fuel (page + 1) in
      bind-Stays (fetch page) (λ items. page_then one size more items) (h page)
        (λ items. page_then-Stays size more items (pages-Stays fetch size fuel (page + 1) h))

module _ {q : FilePath} {A B : Type 0} where
  -- The same where every item is kept.
  pub pages_all-Stays :
      (f : A → B) (fetch : ℕ → Io (List A)) (size fuel page : ℕ)
      → ((n : ℕ) → Stays q (fetch n))
      → Stays q (pages fetch (keep_all f) size fuel page)
  pages_all-Stays f = pages-Stays q (keep_all f) (λ a w. (refl, refl))

  gather-Stays :
      (one : A → Io (List B)) (items : List A)
      → ((a : A) → Stays q (one a))
      → Stays q (gather one items)
  unfolding gather
  gather-Stays one [] h = record { at = λ w. (refl, refl) }
  gather-Stays one (a ∷ items) h = record {
    at = λ w.
        let here = (h a).at w in
        let rest = (gather-Stays one items h).at (one a w).1 in
        ground (arith, here.0, here.1, rest.0, rest.1);
  }

  gather_end-Stays :
      (size : ℕ) (more : Io (List B)) (items : List A) (bs : List B)
      → Stays q more
      → Stays q (gather_end size more items bs)
  unfolding gather_end
  gather_end-Stays size more items bs h = record {
    at = λ w. let rest = h.at w in ground (arith, rest.0, rest.1);
  }

  pub gather_pages-Stays :
      (fetch : ℕ → Io (List A)) (one : A → Io (List B)) (size fuel page : ℕ)
      → ((n : ℕ) → Stays q (fetch n))
      → ((a : A) → Stays q (one a))
      → Stays q (gather_pages fetch one size fuel page)
  unfolding gather_pages
  gather_pages-Stays fetch one size zero page h k = record { at = λ w. (refl, refl) }
  gather_pages-Stays fetch one size (suc fuel) page h k =
      let more = gather_pages fetch one size fuel (page + 1) in
      bind-Stays (fetch page) (λ items. gather one items >>= λ bs. gather_end size more items bs)
        (h page)
        (λ items.
          bind-Stays (gather one items) (λ bs. gather_end size more items bs)
            (gather-Stays one items k)
            (λ bs.
              gather_end-Stays size more items bs
                (gather_pages-Stays fetch one size fuel (page + 1) h k)))

module _ {q : FilePath} {A : Type 0} where
  next_then-Stays :
      (more : Io (List A)) (items : List A) (next : Text)
      → Stays q more
      → Stays q (next_then more items next)
  unfolding next_then
  next_then-Stays more items next h = record {
    at = λ w. let rest = h.at w in ground (arith, rest.0, rest.1);
  }

  pub linked_pages-Stays :
      (fetch : ℕ → Io (List A × Text)) (fuel page : ℕ)
      → ((n : ℕ) → Stays q (fetch n))
      → Stays q (linked_pages fetch fuel page)
  unfolding linked_pages
  linked_pages-Stays fetch zero page h = record { at = λ w. (refl, refl) }
  linked_pages-Stays fetch (suc fuel) page h =
      let more = linked_pages fetch fuel (page + 1) in
      bind-Stays (fetch page) (λ (items, next). next_then more items next) (h page)
        (λ (items, next).
          next_then-Stays more items next (linked_pages-Stays fetch fuel (page + 1) h))

  each-Stays :
      (one : A → Io (Unit {0})) (items : List A)
      → ((a : A) → Stays q (one a))
      → Stays q (each one items)
  unfolding each
  each-Stays one [] h = record { at = λ w. (refl, refl) }
  each-Stays one (a ∷ items) h =
      bind-Stays (one a) (λ _. each one items) (h a) (λ _. each-Stays one items h)

  page_round-Stays :
      (one : A → Io (Unit {0})) (size : ℕ) (more : Io (Unit {0})) (items : List A)
      → ((a : A) → Stays q (one a))
      → Stays q more
      → Stays q (page_round one size more items)
  unfolding page_round page_end
  page_round-Stays one size more [] h k = record { at = λ w. (refl, refl) }
  page_round-Stays one size more (a ∷ items) h k = record {
    at = λ w.
        let here = (each-Stays one (a ∷ items) h).at w in
        let rest = k.at (each one (a ∷ items) w).1 in
        ground (arith, here.0, here.1, rest.0, rest.1);
  }

  pub each_page-Stays :
      (fetch : ℕ → Io (List A)) (one : A → Io (Unit {0})) (size fuel page : ℕ)
      → ((n : ℕ) → Stays q (fetch n))
      → ((a : A) → Stays q (one a))
      → Stays q (each_page fetch one size fuel page)
  unfolding each_page
  each_page-Stays fetch one size zero page h k = record { at = λ w. (refl, refl) }
  each_page-Stays fetch one size (suc fuel) page h k =
      let more = each_page fetch one size fuel (page + 1) in
      bind-Stays (fetch page) (λ items. page_round one size more items) (h page)
        (λ items.
          page_round-Stays one size more items k
            (each_page-Stays fetch one size fuel (page + 1) h k))

  pub each_linked-Stays :
      (fetch : ℕ → Io (List A × Text)) (one : A → Io (Unit {0})) (fuel page : ℕ)
      → ((n : ℕ) → Stays q (fetch n))
      → ((a : A) → Stays q (one a))
      → Stays q (each_linked fetch one fuel page)
  unfolding each_linked linked_end
  each_linked-Stays fetch one zero page h k = record { at = λ w. (refl, refl) }
  each_linked-Stays fetch one (suc fuel) page h k =
      let more = each_linked fetch one fuel (page + 1) in
      bind-Stays (fetch page) (λ (items, next). each one items >> linked_end more next) (h page)
        (λ (items, next). record {
          at = λ w.
              let here = (each-Stays one items k).at w in
              let rest =
                (each_linked-Stays fetch one fuel (page + 1) h k).at (each one items w).1 in
              ground (arith, here.0, here.1, rest.0, rest.1);
        })

  pub download_all-Stays :
      (name : A → Text) (download : A → Io ℕ) (assets : List A)
      → ((a : A) → Stays q (download a))
      → Stays q (download_all name download assets)
  unfolding download_all
  download_all-Stays name download [] h = record { at = λ w. (refl, refl) }
  download_all-Stays name download (a ∷ assets) h = record {
    at = λ w.
        let here = (h a).at w in
        let rest = (download_all-Stays name download assets h).at (download a w).1 in
        ground (arith, here.0, here.1, rest.0, rest.1);
  }

module _ (web : Web) (sends : SendKeeps web) (q : FilePath) where
  pub get_with-Stays :
      {A : Type 0} (headers : List (Text × Text)) (decode : Text → Option A) (url : Url)
      → Stays q (get_with web headers decode url)
  unfolding get_with
  get_with-Stays headers decode url =
      bind-Stays (wrapping (text "get") (web.send (record { url = url; headers = headers })))
        (λ response w. (json_value decode response, w))
        (record { at = (sends q (record { url = url; headers = headers })).at })
        (λ response. looking-Stays (λ w. json_value decode response))

  -- What is answered is looked at, and may be written where the directory allows it.
  pub sent-Stays :
      {A : Type 0} (req : Request) (check : Response → Result (Unit {0})) (write : Response → Io A)
      → ((response : Response) → Stays q (write response))
      → Stays q (do response ← web.send req; λ w. (check response, w); write response)
  sent-Stays req check write h =
      bind-Stays (web.send req) (λ response. (λ w. (check response, w)) >> write response)
        (sends q req)
        (λ response.
          bind-Stays (λ w. (check response, w)) (λ _. write response)
            (looking-Stays (λ w. check response)) (λ _. h response))

-- What is fetched first, and then written.
pub fetch_write-Stays :
    {q : FilePath} {A : Type 0} (context : Text) (fetch : Io A) (write : A → Io (Unit {0}))
    → Stays q fetch
    → ((a : A) → Stays q (write a))
    → Stays q (fetch >>= λ a. wrapping context (write a))
fetch_write-Stays context fetch write h k =
    bind-Stays fetch (λ a. wrapping context (write a)) h
      (λ a. wrapping-Stays context (write a) (k a))
