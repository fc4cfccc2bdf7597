-- ===== src/Seed/Generator/Running.antt =====
-- internal/seed/generator.go `rng` and `Run`: each phase into the sink, from a random source of its own.
pub mod Laws
pub mod Facts
use test_permission.Base.{ℕ, String, List, [], ◌∷◌, ◌==◌, if◌then◌else◌}
use Prim.Native.String.{◌++◌ as str_append}
use test_permission.Base.Fallible.{Fallible, ok, fault, wrapping, ◌>>=◌}
use test_permission.Seed.Types.{Sink}
use test_permission.Seed.Program.{Program, fail}
use test_permission.Seed.Program.Running.{Random, exec}
use test_permission.Seed.Generator.{Generator, phase_tag}
use test_permission.Seed.Generator.Basis.{stream_basis, build_basis}
use test_permission.Seed.Generator.Grants.{stream_rbac}
use test_permission.Seed.Generator.Folders.{stream_rebac}
use test_permission.Seed.Generator.Attributes.{stream_abac}
use test_permission.Seed.Generator.Orders.{stream_pbac}
use test_permission.Seed.Generator.Sharing.{stream_acl}

module _ (R : Random) where
  unfoldable pub rng : Generator → String → R.State
  rng g phase = R.new g.seed (phase_tag phase)

module _ (padded : ℕ → ℕ → String) (fuel : ℕ) where
  -- The switch on the phase's name.
  unfoldable pub stream_of : Generator → String → Program (Unit {0})
  stream_of g phase =
      if phase == "basis"
      then stream_basis g
      else if phase == "rbac"
      then stream_rbac fuel g
      else if phase == "rebac"
      then stream_rebac padded g
      else if phase == "abac"
      then stream_abac padded g
      else if phase == "pbac"
      then stream_pbac padded fuel g
      else if phase == "acl"
      then stream_acl padded fuel g
      else fail (fault "unknown phase")

  module _ (R : Random) {S : Type 0} (sink : Sink S) where
    unfoldable pub run : Generator → List String → S → Fallible S
    unfolding rng
    run g [] x = ok x
    run g (phase ∷ phases) x = do
      streamed ←
          wrapping (str_append "phase " phase) (exec R sink (stream_of g phase) (rng R g phase) x)
      run g phases streamed.2
