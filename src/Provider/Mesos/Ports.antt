-- ===== src/Provider/Mesos/Ports.antt =====
-- provider/mesos/mesos.go: the index of one task is used for the ports of another.
use traefik.Provider.Mesos.{Provider}
