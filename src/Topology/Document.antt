-- ===== src/Topology/Document.antt =====
-- The topology document that the server sends. A list that is absent is empty here: `for … in` over
-- `undefined` makes no round, and `groupInstances` is only read where it is an own property.
use product_private_paas.Common.{Text, Option, List}

pub record Port : Type 0 where
  pub port : Text
  pub protocol : Text

pub record Member : Type 0 where
  pub member_id : Text
  pub default_private_ip : Text
  pub default_public_ip : Text
  pub ports : Option (List Port)
  pub network_partition_id : Text
  pub partition_id : Text
  pub status : Text

pub record Cluster : Type 0 where
  pub cluster_id : Text
  pub instance_id : Text
  pub alias : Text
  pub host_names : List Text
  pub service_name : Text
  pub status : Text
  pub access_urls : Option (List Text)
  pub load_balancer_ips : Option (List Text)
  pub member : List Member

-- group id, instance id, status, `clusterInstances`, `groupInstances`
mutual
  pub data GroupInstance : Type 0 where
    group_instance : Text → Text → Text → List Cluster → GroupInstances → GroupInstance

  pub data GroupInstances : Type 0 where
    no_instances : GroupInstances
    add_instance : GroupInstance → GroupInstances → GroupInstances

pub record Instance : Type 0 where
  pub instance_id : Text
  pub status : Text
  pub application_id : Text
  pub cluster_instances : List Cluster
  pub group_instances : GroupInstances

pub record Topology : Type 0 where
  pub id : Text
  pub status : Text
  pub application_instances : List Instance
