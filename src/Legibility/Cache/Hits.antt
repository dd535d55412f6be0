-- ===== src/Legibility/Cache/Hits.antt =====
-- src/mcp_quality/engines/legibility.py: a second run asks no model.
use mcp_probe.Base.{
  ◌>>=◌, String, List, Option, ◌≡◌, some, ap, none, ◌∙◌, true, str_eq_refl, arith, refl,
}
use mcp_probe.Base.Dict.{Dict, get, insert, get-insert}
use mcp_probe.Models.{ServerSurface}
use mcp_probe.Legibility.Probe.{Provider, Probe}
use mcp_probe.Legibility.Cache.{
  World, cache_get, cache_put, run_or_cache, fresh_probe, path, probe_key,
}

cache_get-cache_put {ℓ} :
    {A : Type ℓ} (write : A → String) (read : String → Option A) (key : String) (a b : A)
    (files : Dict String)
    → read (write a) ≡ some b
    → cache_get read key (cache_put write key a files) ≡ some b
unfolding cache_get cache_put
cache_get-cache_put write read key a b files h =
    let here : get (path key) (insert (path key) (write a) files) ≡ some (write a) =
      ground (arith, get-insert (path key) (path key) (write a) files, str_eq_refl (path key)) in
    ap (λ o. o >>= read) here ∙ h

-- The files that a run leaves behind, with the models in another state
abbrev pub with_models : {M : Type 0} → World M → M → World M
with_models w later = record w { models = later }

module _ {M : Type 0} (provider : Provider M) (digest : String → String) (write : Probe → String)
    (read : String → Option Probe) (same : Probe → Probe)
    (reads : (p : Probe) → read (write p) ≡ some (same p)) where
  -- Where a file's text is read as what was written, up to `same`, a run that finds nothing in the
  -- cache gives a fresh probe, and every later run on the files that it left behind is a cache hit:
  -- it gives the same probe up to `same`, asks no model and writes no file.
  pub run_or_cache-hit :
      (goals : List (String × String)) (surface : ServerSurface) (gsv : String) (w : World M)
      (later : M)
      → cache_get read (probe_key provider digest write read surface gsv) w.files ≡ none
      → (let run = run_or_cache provider digest write read goals surface gsv in
          let first = run w in
          let left = with_models first.1 later in
          (first.0.0 ≡ (fresh_probe provider goals surface w.models).0)
          × (run left ≡ ((same first.0.0, true), left)))
  unfolding run_or_cache
  run_or_cache-hit goals surface gsv w later miss = rw miss (
    refl,
    rw
        (cache_get-cache_put write read (probe_key provider digest write read surface gsv)
          (fresh_probe provider goals surface w.models).0
          (same (fresh_probe provider goals surface w.models).0) w.files (reads _))
        refl,
  )
