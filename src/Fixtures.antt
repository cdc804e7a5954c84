-- ===== src/Fixtures.antt =====
-- Descriptors for the tests: those of the source's own tests in lib.rs and graph.rs.
use fractal_d.Base.{◌++◌, Text, codes}
use fractal_d.Spec.{ServiceSpec, new}

abbrev pub service : Text → ServiceSpec
service name = new name (codes "/usr/libexec/" ++ name)
